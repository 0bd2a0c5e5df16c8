-- ===== src/Resolver/Found.antt =====
-- What the two maps of `DomainResolver` find.
use trans_proxy.Base.{
  ℕ, ◌^◌, ◌<◌, ◌≡◌, ◌≢◌, inl, inr, sym, ap, ◌∙◌, true, none, some, get_elem?, Option-cases, arith,
}
use trans_proxy.Map.{◌>>=◌}
use trans_proxy.Map.Api
use trans_proxy.Map.Api.Added.{empty-IsTable}
use trans_proxy.Text.{Text}
use trans_proxy.Text.Order.{text_key}
use trans_proxy.Tcp.Server.{number_key}
use trans_proxy.Resolver.{ResolvItem, Hosts, fresh, host_named, host_at}
use trans_proxy.Resolver.Valid.{IsValid}

none_not : {A : Type 0} {a : A} → none ≢ some a
none_not e = cc

some_same : {A : Type 0} {a b : A} → some a ≡ some b → a ≡ b
some_same e = cc

pub fresh-IsValid : (base : ℕ) → base < 2 ^ 32 → IsValid base (fresh base)
unfolding Api.get
fresh-IsValid base b = record {
  names = record {
    table = empty-IsTable true;
    below = tt;
    size = omega arith;
    finds = λ i h e. cc;
    found = λ q x e. absurd (none_not e);
  };
  addresses = record {
    table = empty-IsTable true;
    below = tt;
    size = omega arith;
    finds = λ i h e. cc;
    found = λ q x e. absurd (none_not e);
  };
  next = omega arith;
  numbered = λ i h e. cc;
}

-- The host at a place is found under its name and under its address.
pub host_named_at :
    (base : ℕ) (t : Hosts) (i : ℕ) (h : ResolvItem)
    → IsValid base t
    → get_elem? t.hosts i ≡ some h
    → host_named h.name t ≡ some h
unfolding host_named
host_named_at base t i h v e = ap (λ o. o >>= λ x. get_elem? t.hosts x.id) (v.names.finds i h e) ∙ e

pub host_at_place :
    (base : ℕ) (t : Hosts) (i : ℕ) (h : ResolvItem)
    → IsValid base t
    → get_elem? t.hosts i ≡ some h
    → host_at h.ip t ≡ some h
unfolding host_at
host_at_place base t i h v e =
    ap (λ o. o >>= λ x. get_elem? t.hosts x.id) (v.addresses.finds i h e) ∙ e

pub host_named_place :
    (base : ℕ) (t : Hosts) (name : Text) (h : ResolvItem)
    → IsValid base t
    → host_named name t ≡ some h
    → (i : ℕ) × (get_elem? t.hosts i ≡ some h) × (h.name ≡ name)
unfolding host_named
host_named_place base t name h v e = elim (Option-cases (Api.get t.by_name.root name)) [
  | inl n ↦ absurd (none_not (sym (ap (λ o. o >>= λ x. get_elem? t.hosts x.id) n) ∙ e))
  | inr (x, f) ↦
      let (h', o, s) = v.names.found name x f in
      let here = sym (ap (λ o. o >>= λ x. get_elem? t.hosts x.id) f) ∙ e in
      (x.id, here, ap (λ y. y.name) (some_same (sym here ∙ o)) ∙ s)
]

pub host_at_known :
    (base : ℕ) (t : Hosts) (ip : ℕ) (h : ResolvItem)
    → IsValid base t
    → host_at ip t ≡ some h
    → (i : ℕ) × (get_elem? t.hosts i ≡ some h) × (h.ip ≡ ip)
unfolding host_at
host_at_known base t ip h v e = elim (Option-cases (Api.get t.by_ip.root ip)) [
  | inl n ↦ absurd (none_not (sym (ap (λ o. o >>= λ x. get_elem? t.hosts x.id) n) ∙ e))
  | inr (x, f) ↦
      let (h', o, s) = v.addresses.found ip x f in
      let here = sym (ap (λ o. o >>= λ x. get_elem? t.hosts x.id) f) ∙ e in
      (x.id, here, ap (λ y. y.ip) (some_same (sym here ∙ o)) ∙ s)
]

pub host_named_absent :
    (base : ℕ) (t : Hosts) (name : Text)
    → IsValid base t
    → host_named name t ≡ none
    → Api.get t.by_name.root name ≡ none
unfolding host_named
host_named_absent base t name v e = elim (Option-cases (Api.get t.by_name.root name)) [
  | inl n ↦ n
  | inr (x, f) ↦
      let (h, o, s) = v.names.found name x f in
      absurd (none_not (sym e ∙ ap (λ o. o >>= λ x. get_elem? t.hosts x.id) f ∙ o))
]
