-- ===== src/Text/Tests.antt =====
-- Searches in short texts.
use trans_proxy.Base.{◌≡◌, refl, some}
use trans_proxy.Text.{codes, index_of_char, substring}

colon : index_of_char (codes "ab:c") b':' ≡ some 2
unfolding index_of_char
colon = refl

middle : substring (codes "abcd") 1 2 ≡ codes "bc"
unfolding substring
middle = refl
