-- ===== src/Rules/Tests.antt =====
-- A small rule file and the hosts that its rules cover.
use trans_proxy.Base.{length, ℕ, ◌≡◌, arith, refl, Bool, true, false, Option, some, List, [], ◌∷◌}
use trans_proxy.Map.{adjust, ◌>>=◌}
use trans_proxy.Text.{Text, codes, eq, gt}
use trans_proxy.Text.Order.{text_key}
use trans_proxy.Net.Compare.{Agree-key}
use trans_proxy.Rules.{Nodes, no_rules, load_lines, accept_proxy, deny_proxy}
use trans_proxy.Rules.Labels.{rules_of, any_covers}
use trans_proxy.Rules.Load.{weight}
use trans_proxy.Rules.Answers.{load_lines_lem}

abbrev file : List Text
file =
    codes "! comment\n"
    ∷ codes "||example.com\n"
    ∷ codes "@@||direct.cn\n"
    ∷ codes "http://foo.org/\n"
    ∷ codes "exact.net\n"
    ∷ codes "bad..net\n"
    ∷ []

abbrev accepts : Text → Option Bool
accepts host = load_lines no_rules 0 file >>= λ (h, c). some (accept_proxy h 0 host)

accepts_below : accepts (codes "www.example.com") ≡ some true
unfolding load_lines accept_proxy no_rules text_key Agree-key eq gt adjust
accepts_below = refl

accepts_itself : accepts (codes "example.com") ≡ some true
unfolding load_lines accept_proxy no_rules text_key Agree-key eq gt adjust
accepts_itself = refl

accepts_exact : accepts (codes "exact.net") ≡ some true
unfolding load_lines accept_proxy no_rules text_key Agree-key eq gt adjust
accepts_exact = refl

rejects_below_exact : accepts (codes "www.exact.net") ≡ some false
unfolding load_lines accept_proxy no_rules text_key Agree-key eq gt adjust
rejects_below_exact = refl

rejects_path : accepts (codes "foo.org") ≡ some false
unfolding load_lines accept_proxy no_rules text_key Agree-key eq gt adjust
rejects_path = refl

load_lines_lem_example :
    (h : Nodes) × (load_lines no_rules 0 file ≡ some (h, length (rules_of file)))
    × ((client : ℕ) (host : Text)
        → (accept_proxy h client host ≡ any_covers false (rules_of file) host)
          × (deny_proxy h client host ≡ any_covers true (rules_of file) host))
unfolding rules_of weight
load_lines_lem_example = load_lines_lem file (omega arith)
