-- ===== src/Resolver/Restart.antt =====
-- A resolver that starts on the cache file of another has its hosts.
use trans_proxy.Base.{
  ℕ, ◌+◌, ◌^◌, ◌<◌, ◌≡◌, ◌≢◌, inl, inr, refl, sym, ap, subst, ◌∙◌, Option, none, some, List, [],
  ◌∷◌, ◌++◌, ==_self, length, if◌then◌else◌, Bool-cases, Option-cases,
}
use trans_proxy.Map.{◌>>=◌}
use trans_proxy.Map.Sorted.{All, append-All}
use trans_proxy.Text.{Text}
use trans_proxy.Resolver.{
  ResolvItem, Hosts, Resolver, fresh, add_item, add_host, host_named, any_denies, any_accepts,
  known_or_new, dns, loaded, load_file, start, create,
}
use trans_proxy.Resolver.File.{save_entry}
use trans_proxy.Resolver.Valid.{IsValid, add_item-WithHost}
use trans_proxy.Resolver.Found.{host_named_absent}
use trans_proxy.Resolver.Saved.{entries, file_of, Keeps, save_entry-Keeps}
use trans_proxy.Resolver.Reload.{IsHost, add_numbered, add_items, load_file-file_of}

-- The tables were made by adding the hosts in turn, and the cache file holds them.
pub record Saved (base : ℕ) (r : Resolver) : Type 0 where
  pub made : add_items r.table.hosts (fresh base) ≡ some r.table
  pub hosts : All IsHost r.table.hosts
  pub file : Keeps r.file r.table.hosts

nothing_is : {A : Type 0} {a : A} → none ≢ some a
nothing_is e = cc

the_same : {A : Type 0} {a b : A} → some a ≡ some b → a ≡ b
the_same e = cc

add_items-append :
    (hs : List ResolvItem) (h : ResolvItem) (t u : Hosts)
    → add_items hs t ≡ some u
    → add_items (hs ++ (h ∷ [])) t ≡ (add_numbered h u >>= λ v. some v)
unfolding add_items
add_items-append [] h t u e = ap (λ o. o >>= λ x. add_numbered h x >>= λ v. some v) e
add_items-append (g ∷ hs) h t u e = elim (Option-cases (add_numbered g t)) [
  | inl n ↦ absurd (nothing_is (sym (ap (λ o. o >>= λ x. add_items hs x) n) ∙ e))
  | inr (x, m) ↦
      ap (λ o. o >>= λ y. add_items (hs ++ (h ∷ [])) y) m
      ∙ add_items-append hs h x u (sym (ap (λ o. o >>= λ y. add_items hs y) m) ∙ e)
]

new_numbered :
    (name : Text) (t u : Hosts)
    → add_item name t ≡ some u
    → (add_numbered (record { name = name; ip = t.ip }) t >>= λ v. some v) ≡ some u
new_numbered name t u e =
    ap (λ b. (if b then add_item name t else none) >>= λ v. some v) (==_self t.ip)
    ∙ ap (λ o. o >>= λ v. some v) e

keeps_file :
    (file : Option (List ℕ)) (hs : List ResolvItem) (base : ℕ) (t : Hosts)
    → Keeps file hs
    → All IsHost hs
    → add_items hs (fresh base) ≡ some t
    → 8 + length (entries hs) < 2 ^ 63
    → load_file base file ≡ loaded t
unfolding Keeps load_file add_items
keeps_file none hs base t k v e room =
    ap loaded (the_same (sym (ap (λ gs. add_items gs (fresh base)) k) ∙ e))
keeps_file (some file) hs base t k v e room =
    ap (λ f. load_file base (some f)) k ∙ load_file-file_of base hs t v e room

-- A resolver that is started on the cache file of another, which is in step with the tables of that one
-- and not too long for a `long`, has those tables, item for item, and goes on with the same file.
pub create-file :
    (base : ℕ) (r : Resolver)
    → Saved base r
    → 8 + length (entries r.table.hosts) < 2 ^ 63
    → create base r.file ≡ some (record r { rules = [] })
unfolding create start
create-file base r s room =
    ap (start base r.file) (keeps_file r.file r.table.hosts base r.table s.file s.hosts s.made room)

add_host-Saved :
    (base : ℕ) (name : Text) (r : Resolver)
    → IsValid base r.table
    → length r.table.hosts < 2 ^ 32
    → Saved base r
    → IsHost (record { name = name; ip = r.table.ip })
    → 8 + length (entries r.table.hosts) < 2 ^ 63
    → host_named name r.table ≡ none
    → (after : Resolver) × (add_host name r ≡ some (r.table.ip, after)) × Saved base after
unfolding add_host Keeps
add_host-Saved base name r v room s h space e =
    let w = add_item-WithHost base name r.table v room (host_named_absent base r.table name v e) in
    let new : ResolvItem = record { name = name; ip = r.table.ip } in
    let after : Resolver = record r {
      table = w.table;
      file = some (save_entry name r.table.ip r.file);
    } in
    (
      after,
      ap
          (λ o. o >>= λ t.
            some
              (r.table.ip, record r { table = t; file = some (save_entry name r.table.ip r.file) }))
          w.result,
      record {
        made =
            ap (λ hs. add_items hs (fresh base)) w.hosts
            ∙ add_items-append r.table.hosts new (fresh base) r.table s.made
            ∙ new_numbered name r.table w.table w.result;
        hosts =
            subst (All IsHost) (sym w.hosts)
              (append-All IsHost r.table.hosts (new ∷ []) s.hosts (h, tt));
        file =
            save_entry-Keeps r.file r.table.hosts name r.table.ip s.file space
            ∙ ap file_of (sym w.hosts);
      },
    )

-- Each call of `dns` for a name without NUL returns, and keeps the cache file in step with the tables,
-- while these are valid, addresses are left and the file is not too long for a `long`.
pub dns-Saved :
    (base client : ℕ) (name : Text) (r : Resolver)
    → IsValid base r.table
    → length r.table.hosts < 2 ^ 32
    → Saved base r
    → IsHost (record { name = name; ip = r.table.ip })
    → 8 + length (entries r.table.hosts) < 2 ^ 63
    → (ip : ℕ) × (after : Resolver) × (dns client name r ≡ some (ip, after)) × Saved base after
unfolding dns known_or_new
dns-Saved base client name r v room s h space = elim (Bool-cases (any_denies r.rules client name)) [
  | inl d ↦ (0, r, rw d refl, s)
  | inr d ↦ elim (Bool-cases (any_accepts r.rules client name)) [
    | inr a ↦ (0, r, rw (d, a) refl, s)
    | inl a ↦ elim (Option-cases (host_named name r.table)) [
      | inr (host, e) ↦ (host.ip, r, rw (d, a) (ap (λ o. known_or_new o name r) e), s)
      | inl e ↦
          let (after, made, kept) = add_host-Saved base name r v room s h space e in
          (r.table.ip, after, rw (d, a) (ap (λ o. known_or_new o name r) e ∙ made), kept)
    ]
  ]
]
