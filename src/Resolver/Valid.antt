-- ===== src/Resolver/Valid.antt =====
-- The tables of the resolver: both maps name every host, and the addresses follow each other.
use mathlib.Core.Bool.{false≢true}
use trans_proxy.Base.{
  ℕ, ◌+◌, ◌%◌, ◌^◌, ◌≤◌, ◌<◌, ◌≡◌, ◌≢◌, inl, inr, refl, sym, ap, ap₂, subst, ◌∙◌, true, none, some,
  List, [], ◌∷◌, ◌++◌, length, get_elem?, length-append, Bool-cases, Option-cases, at_bound,
  at_kept, at_last, at_back, size_mod, arith,
}
use trans_proxy.Map.{Item, ◌>>=◌}
use trans_proxy.Map.Order.{Key}
use trans_proxy.Map.Sorted.{All, All-map, place-All}
use trans_proxy.Map.Api
use trans_proxy.Map.Api.{AvlMap}
use trans_proxy.Map.Api.Valid.{contents}
use trans_proxy.Map.Api.Added.{IsTable, Grown, add-Grown}
use trans_proxy.Text.{Text}
use trans_proxy.Text.Order.{text_key}
use trans_proxy.Tcp.Server.{number_key}
use trans_proxy.Resolver.{ResolvItem, Hosts, add_item}

abbrev pub item : {K : Type 0} → ℕ → K → Item K
item i k = record { id = i; key = k }

-- A map in which each host has its item, under the key that `key` reads of the host.
pub record Indexes {K : Type 0} ⦃k : Key K⦄ (key : ResolvItem → K) (hosts : List ResolvItem)
    (m : AvlMap K) : Type 0 where
  pub table : IsTable m
  pub below : All (λ x. x.id < length hosts) (contents m)
  pub size : m.size ≤ length hosts
  pub finds :
      (i : ℕ) (h : ResolvItem)
      → get_elem? hosts i ≡ some h
      → Api.get m.root (key h) ≡ some (item i (key h))
  pub found :
      (q : K) (x : Item K)
      → Api.get m.root q ≡ some x
      → (h : ResolvItem) × (get_elem? hosts x.id ≡ some h) × (key h ≡ q)

pub record IsValid (base : ℕ) (t : Hosts) : Type 0 where
  pub names : Indexes (λ h. h.name) t.hosts t.by_name
  pub addresses : Indexes (λ h. h.ip) t.hosts t.by_ip
  pub next : t.ip ≡ (base + length t.hosts) % 2 ^ 32
  pub numbered :
      (i : ℕ) (h : ResolvItem) → get_elem? t.hosts i ≡ some h → h.ip ≡ (base + i) % 2 ^ 32

some_back : {A : Type 0} {a b : A} → some a ≡ some b → a ≡ b
some_back e = cc

nothing_found : {A : Type 0} {a : A} → none ≢ some a
nothing_found e = cc

added_both :
    (name : Text) (t : Hosts) (by_name : AvlMap Text) (by_ip : AvlMap ℕ)
    → Api.add t.by_name (item (length t.hosts) name) ≡ some (true, by_name)
    → Api.add t.by_ip (item (length t.hosts) t.ip) ≡ some (true, by_ip)
    → add_item name t
      ≡ some (record {
        ip = (t.ip + 1) % 2 ^ 32;
        by_name = by_name;
        by_ip = by_ip;
        hosts = t.hosts ++ (record { name = name; ip = t.ip } ∷ []);
      })
unfolding add_item
added_both name t by_name by_ip e f =
    ap₂
      (λ o o'. o >>= λ (_, m). o' >>= λ (_, m'). some (record {
        ip = (t.ip + 1) % 2 ^ 32;
        by_name = m;
        by_ip = m';
        hosts = t.hosts ++ (record { name = name; ip = t.ip } ∷ []);
      }))
      e f

module _ {K : Type 0} ⦃k : Key K⦄ (key : ResolvItem → K) (hosts : List ResolvItem) (m : AvlMap K)
    (v : Indexes key hosts m) (new : ResolvItem) (absent : Api.get m.root (key new) ≡ none)
    (room : length hosts + 1 < size_mod) where
  grown : Grown m (item (length hosts) (key new))
  grown =
      add-Grown m (item (length hosts) (key new)) v.table absent
        (All-map (contents m) (λ x g. (omega arith)) v.below) (omega (arith, v.size))

  -- The key of the new host is not that of a host that is there.
  differs : (i : ℕ) (h : ResolvItem) → get_elem? hosts i ≡ some h → key new ≢ key h
  differs i h e same = nothing_found (sym absent ∙ ap (Api.get m.root) same ∙ v.finds i h e)

  added-Indexes : Indexes key (hosts ++ (new ∷ [])) grown.map
  added-Indexes =
      let longer : length (hosts ++ (new ∷ [])) ≡ length hosts + 1 =
        omega (arith, length-append hosts (new ∷ [])) in
      record {
        table = grown.table;
        below = subst (All (λ x. x.id < length (hosts ++ (new ∷ [])))) (sym grown.in_order) (
            place-All (λ x. x.id < length (hosts ++ (new ∷ []))) (item (length hosts) (key new))
              (contents m) (omega (arith, longer))
              (All-map (contents m) (λ x g. omega (arith, longer)) v.below));
        size = omega (arith, grown.size, v.size, longer);
        finds = λ i h e. elim (at_back hosts new i h e) [
          | inl o ↦ grown.get_old (key h) (differs i h o) ∙ v.finds i h o
          | inr (n, s) ↦
              ap (λ x. Api.get grown.map.root (key x)) s
              ∙ grown.get_new
              ∙ ap some (ap₂ item (sym n) (ap key (sym s)))
        ];
        found = λ q x e. elim (Bool-cases (k.eqb (key new) q)) [
          | inl t ↦
              let same = (k.eqb_iff (key new) q).0 t in
              let own : item (length hosts) (key new) ≡ x =
                some_back (sym grown.get_new ∙ ap (Api.get grown.map.root) same ∙ e) in
              (
                new,
                ap (λ y. get_elem? (hosts ++ (new ∷ [])) y.id) (sym own) ∙ at_last hosts new,
                same,
              )
          | inr t ↦
              let other : key new ≢ q = (λ s. false≢true (sym t ∙ (k.eqb_iff (key new) q).1 s)) in
              let (h, o, s) = v.found q x (sym (grown.get_old q other) ∙ e) in
              (h, at_kept hosts (new ∷ []) x.id h o, s)
        ];
      }

-- `t` with one more host.
pub record WithHost (base : ℕ) (name : Text) (t : Hosts) : Type 0 where
  pub table : Hosts
  pub result : add_item name t ≡ some table
  pub hosts : table.hosts ≡ t.hosts ++ (record { name = name; ip = t.ip } ∷ [])
  pub valid : IsValid base table

-- While addresses are left, a new host gets one that no other host has.
next_unused :
    (base : ℕ) (t : Hosts)
    → IsValid base t
    → length t.hosts < 2 ^ 32
    → Api.get t.by_ip.root t.ip ≡ none
next_unused base t v room = elim (Option-cases (Api.get t.by_ip.root t.ip)) [
  | inl e ↦ e
  | inr (x, e) ↦
      let (h, o, s) = v.addresses.found t.ip x e in
      let under = at_bound t.hosts x.id h o in absurd (omega (arith, v.next, v.numbered x.id h o))
]

pub add_item-WithHost :
    (base : ℕ) (name : Text) (t : Hosts)
    → IsValid base t
    → length t.hosts < 2 ^ 32
    → Api.get t.by_name.root name ≡ none
    → WithHost base name t
add_item-WithHost base name t v room absent =
    let new : ResolvItem = record { name = name; ip = t.ip } in
    let free = next_unused base t v room in
    let space : length t.hosts + 1 < size_mod = omega arith in
    let n = grown (λ h. h.name) t.hosts t.by_name v.names new absent space in
    let a = grown (λ h. h.ip) t.hosts t.by_ip v.addresses new free space in
    let longer : length (t.hosts ++ (new ∷ [])) ≡ length t.hosts + 1 =
      omega (arith, length-append t.hosts (new ∷ [])) in
    let table : Hosts = record {
      ip = (t.ip + 1) % 2 ^ 32;
      by_name = n.map;
      by_ip = a.map;
      hosts = t.hosts ++ (new ∷ []);
    } in
    record {
      table = table;
      result = added_both name t n.map a.map n.result a.result;
      hosts = refl;
      valid = record {
        names = added-Indexes (λ h. h.name) t.hosts t.by_name v.names new absent space;
        addresses = added-Indexes (λ h. h.ip) t.hosts t.by_ip v.addresses new free space;
        next = omega (arith, v.next, longer);
        numbered = λ i h e. elim (at_back t.hosts new i h e) [
          | inl o ↦ v.numbered i h o
          | inr (q, s) ↦ ap (λ x. x.ip) s ∙ v.next ∙ ap (λ j. (base + j) % 2 ^ 32) (sym q)
        ];
      };
    }
