-- ===== src/Map/Api/Tests.antt =====
-- A map of three socket addresses, and what its calls give.
use trans_proxy.Base.{
  ℕ, ◌+◌, ◌≡◌, ◌≢◌, refl, true, Option, none, some, List, [], ◌∷◌, arith, ap, map,
}
use trans_proxy.Map.{Item, Tree, leaf, node, items, ◌>>=◌, height, insert, adjust}
use trans_proxy.Map.Insert.{Inserted, insert-Inserted}
use trans_proxy.Map.Sorted.{All, place}
use trans_proxy.Map.Identity.{erase, Known, holds}
use trans_proxy.Map.Api.{AvlMap, check_order, clear, get, min, max}
use trans_proxy.Map.Api
use trans_proxy.Map.Api.Lookup.{Finds, get-Finds}
use trans_proxy.Map.Api.Valid.{IsValid, contents, add_lem, remove_lem}
use trans_proxy.Net.Compare.{Agree-key}
use trans_proxy.Net.Sock.{SockAddr, sock_key}

abbrev item : ℕ → Item SockAddr
item n = record { id = n; key = record { ip = 10; port = n } }

abbrev one_node : Option (Item SockAddr) → ℕ → Tree SockAddr
one_node p n = node p 1 leaf (item n) leaf

-- The ports 10, 20 and 30 in a map that checks itself.
abbrev three : AvlMap SockAddr
three = record {
  named = true;
  root = node none 2 (one_node (some (item 20)) 10) (item 20) (one_node (some (item 20)) 30);
  size = 3;
}

three-IsValid : IsValid three
unfolding Agree-key sock_key
three-IsValid = record {
  balanced = (
    refl,
    omega arith,
    omega arith,
    (refl, omega arith, omega arith, tt, tt),
    (refl, omega arith, omega arith, tt, tt),
  );
  linked = (refl, (refl, tt, tt), (refl, tt, tt));
  sorted = ((refl, (refl, tt)), ((refl, tt), (tt, tt)));
  distinct = ((omega arith, (omega arith, tt)), ((omega arith, tt), (tt, tt)));
  counted = refl;
}

three-Known : (n : ℕ) → Known (item n) (contents three)
three-Known n =
    let same_key : (a : ℕ) → a ≡ n → (item a).key ≡ (item n).key =
      (λ a e. ap (λ q. record { ip = 10; port = q }) e) in
    (same_key 10, (same_key 20, (same_key 30, tt)))

-- A run: two more items are added, and one is taken out.
script : AvlMap SockAddr → Option (List ℕ × ℕ)
unfolding Agree-key sock_key Api.add Api.remove
script m0 = Api.add m0 (item 25) >>= λ (_, m1). Api.add m1 (item 27) >>= λ (_, m2).
    Api.remove m2 (item 20) >>= λ (_, m3).
    some (map (λ (x : Item SockAddr). x.id) (contents m3), height m3.root)

script_run : script three ≡ some (10 ∷ 25 ∷ 27 ∷ 30 ∷ [], 3)
unfolding script adjust
script_run = refl

add_lem_example :
    (m' : AvlMap SockAddr) × (Api.add three (item 25) ≡ some (true, m'))
    × IsValid m'
    × (contents m' ≡ place (item 25) (contents three))
    × (m'.size ≡ three.size + 1)
add_lem_example =
    add_lem three (item 25) three-IsValid (omega arith, (omega arith, (omega arith, tt)))
      (omega arith)

remove_lem_example :
    (m' : AvlMap SockAddr) × (Api.remove three (item 20) ≡ some (true, m'))
    × IsValid m'
    × (contents m' ≡ erase (item 20) (contents three))
    × (m'.size + 1 ≡ three.size)
unfolding holds
remove_lem_example = remove_lem three (item 20) three-IsValid (three-Known 20) refl (omega arith)

three_Unique : All (λ y. y.id ≢ 30 → y.key ≢ (item 30).key) (contents three)
three_Unique =
    let port : SockAddr → ℕ = (λ a. a.port) in
    let ten : 10 ≢ 30 = omega arith in
    let twenty : 20 ≢ 30 = omega arith in
    ((λ _ e. ten (ap port e)), ((λ _ e. twenty (ap port e)), ((λ n _. n refl), tt)))

get-Finds_example : Finds (item 30).key (items three.root) (get three.root (item 30).key)
get-Finds_example = get-Finds three.root (item 30).key three-IsValid.sorted

insert-Inserted_example : Inserted none three.root (item 25) (insert none three.root (item 25))
insert-Inserted_example =
    insert-Inserted none three.root (item 25) three-IsValid.balanced three-IsValid.linked
      three-IsValid.sorted (omega arith, (omega arith, (omega arith, tt)))

abbrev two_nodes : Tree SockAddr
two_nodes = node (some (item 30)) 2 (one_node (some (item 20)) 10) (item 20) leaf
