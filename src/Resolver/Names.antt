-- ===== src/Resolver/Names.antt =====
-- `dns` and `ddns` of DomainResolver.cpp: what an address that was given to a host stands for.
use trans_proxy.Base.{
  ℕ, ◌^◌, ◌<◌, ◌≡◌, ◌⊎◌, inl, inr, refl, sym, ap, subst, ◌∙◌, true, false, Option, none, some, [],
  ◌∷◌, ◌++◌, length, get_elem?, at_kept, at_last, Bool-cases, Option-cases,
}
use trans_proxy.Map.{◌>>=◌}
use trans_proxy.Text.{Text}
use trans_proxy.Text.Order.{text_key}
use trans_proxy.Tcp.Server.{number_key}
use trans_proxy.Resolver.{
  ResolvItem, Hosts, Resolver, add_item, add_host, host_named, host_at, any_denies, any_accepts,
  known_or_new, dns, named_or_dotted, ddns,
}
use trans_proxy.Resolver.File.{save_entry}
use trans_proxy.Resolver.Found.{
  host_named_at, host_at_place, host_named_place, host_at_known, host_named_absent,
}
use trans_proxy.Resolver.Valid.{IsValid, add_item-WithHost}

-- What `dns` leaves for a host that goes through the proxy.
pub record Given (base client : ℕ) (name : Text) (r : Resolver) : Type 0 where
  pub ip : ℕ
  pub after : Resolver
  pub host : ResolvItem
  pub result : dns client name r ≡ some (ip, after)
  pub valid : IsValid base after.table
  pub rules : after.rules ≡ r.rules
  pub found : host_at ip after.table ≡ some host
  pub named : host.name ≡ name
  pub again : dns client name after ≡ some (ip, after)
  pub kept :
      (ip' : ℕ) (h : ResolvItem) → host_at ip' r.table ≡ some h → host_at ip' after.table ≡ some h

-- `dns` for a host that no rules deny and some accept.
dns_accepted :
    (client : ℕ) (name : Text) (r : Resolver)
    → any_denies r.rules client name ≡ false
    → any_accepts r.rules client name ≡ true
    → dns client name r ≡ known_or_new (host_named name r.table) name r
unfolding dns
dns_accepted client name r d a = rw (d, a) refl

known_result :
    (h : ResolvItem) (name : Text) (r : Resolver) (o : Option ResolvItem)
    → o ≡ some h
    → known_or_new o name r ≡ some (h.ip, r)
unfolding known_or_new
known_result h name r o e = ap (λ x. known_or_new x name r) e

new_result :
    (name : Text) (r : Resolver) (o : Option ResolvItem)
    → o ≡ none
    → known_or_new o name r ≡ add_host name r
unfolding known_or_new
new_result name r o e = ap (λ x. known_or_new x name r) e

add_host_made :
    (name : Text) (r : Resolver) (t : Hosts)
    → add_item name r.table ≡ some t
    → (after : Resolver) × (add_host name r ≡ some (r.table.ip, after))
      × (after.table ≡ t)
      × (after.rules ≡ r.rules)
unfolding add_host
add_host_made name r t e =
    let after : Resolver = record r {
      table = t;
      file = some (save_entry name r.table.ip r.file);
    } in
    (
      after,
      ap
          (λ o. o >>= λ t'.
            some (
              r.table.ip,
              record r { table = t'; file = some (save_entry name r.table.ip r.file) },
            ))
          e,
      refl,
      refl,
    )

known_Given :
    (base client : ℕ) (name : Text) (r : Resolver) (h : ResolvItem)
    → IsValid base r.table
    → any_denies r.rules client name ≡ false
    → any_accepts r.rules client name ≡ true
    → host_named name r.table ≡ some h
    → Given base client name r
known_Given base client name r h v d a e =
    let (i, place, named) = host_named_place base r.table name h v e in
    let result : dns client name r ≡ some (h.ip, r) =
      dns_accepted client name r d a ∙ known_result h name r (host_named name r.table) e in
    record {
      ip = h.ip;
      after = r;
      host = h;
      result = result;
      valid = v;
      rules = refl;
      found = host_at_place base r.table i h v place;
      named = named;
      again = result;
      kept = λ ip' h' f. f;
    }

new_Given :
    (base client : ℕ) (name : Text) (r : Resolver)
    → IsValid base r.table
    → length r.table.hosts < 2 ^ 32
    → any_denies r.rules client name ≡ false
    → any_accepts r.rules client name ≡ true
    → host_named name r.table ≡ none
    → Given base client name r
new_Given base client name r v room d a e =
    let w = add_item-WithHost base name r.table v room (host_named_absent base r.table name v e) in
    let new : ResolvItem = record { name = name; ip = r.table.ip } in
    let (after, made, table, rules) = add_host_made name r w.table w.result in
    let valid : IsValid base after.table = subst (IsValid base) (sym table) w.valid in
    let hosts : after.table.hosts ≡ r.table.hosts ++ (new ∷ []) =
      ap (λ t. t.hosts) table ∙ w.hosts in
    let place : get_elem? after.table.hosts (length r.table.hosts) ≡ some new =
      ap (λ hs. get_elem? hs (length r.table.hosts)) hosts ∙ at_last r.table.hosts new in
    let known = host_named_at base after.table (length r.table.hosts) new valid place in
    record {
      ip = r.table.ip;
      after = after;
      host = new;
      result =
          dns_accepted client name r d a ∙ new_result name r (host_named name r.table) e ∙ made;
      valid = valid;
      rules = rules;
      found = host_at_place base after.table (length r.table.hosts) new valid place;
      named = refl;
      again =
          dns_accepted client name after (ap (λ x. any_denies x client name) rules ∙ d)
            (ap (λ x. any_accepts x client name) rules ∙ a)
          ∙ known_result new name after (host_named name after.table) known;
      kept = λ ip' h f.
          let (i, o, s) = host_at_known base r.table ip' h v f in
          let there : get_elem? after.table.hosts i ≡ some h =
            ap (λ hs. get_elem? hs i) hosts ∙ at_kept r.table.hosts (new ∷ []) i h o in
          ap (λ q. host_at q after.table) (sym s) ∙ host_at_place base after.table i h valid there;
    }

pub dns-Given :
    (base client : ℕ) (name : Text) (r : Resolver)
    → IsValid base r.table
    → length r.table.hosts < 2 ^ 32
    → any_denies r.rules client name ≡ false
    → any_accepts r.rules client name ≡ true
    → Given base client name r
dns-Given base client name r v room d a = elim (Option-cases (host_named name r.table)) [
  | inl e ↦ new_Given base client name r v room d a e
  | inr (h, e) ↦ known_Given base client name r h v d a e
]

-- For a host that no rules deny and some accept, while the tables are valid and addresses are left:
-- `dns` gives an address for
-- which `ddns` returns the name of that host, the tables stay valid, a second call gives the same
-- address and changes nothing, and the addresses of other hosts keep what they stand for.
pub ddns-dns :
    (base client : ℕ) (name : Text) (r : Resolver)
    → IsValid base r.table
    → length r.table.hosts < 2 ^ 32
    → any_denies r.rules client name ≡ false
    → any_accepts r.rules client name ≡ true
    → (ip : ℕ) × (after : Resolver) × (dns client name r ≡ some (ip, after))
      × (ddns ip after ≡ some name)
      × IsValid base after.table
      × (dns client name after ≡ some (ip, after))
      × ((ip' : ℕ) (h : ResolvItem) → host_at ip' r.table ≡ some h → ddns ip' after ≡ some h.name)
unfolding ddns named_or_dotted
ddns-dns base client name r v room d a =
    let g = dns-Given base client name r v room d a in
    (
      g.ip,
      g.after,
      g.result,
      ap (λ o. named_or_dotted o g.ip) g.found ∙ ap some g.named,
      g.valid,
      g.again,
      λ ip' h e. ap (λ o. named_or_dotted o ip') (g.kept ip' h e),
    )

-- A host that some rules deny or none accept has no address: `dns` returns 0 and changes nothing.
pub dns_direct :
    (client : ℕ) (name : Text) (r : Resolver)
    → (any_denies r.rules client name ≡ true) ⊎ (any_accepts r.rules client name ≡ false)
    → dns client name r ≡ some (0, r)
unfolding dns
dns_direct client name r (inl d) = rw d refl
dns_direct client name r (inr a) = elim (Bool-cases (any_denies r.rules client name)) [
  | inl d ↦ rw d refl
  | inr n ↦ rw (n, a) refl
]
