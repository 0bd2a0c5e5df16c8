-- ===== src/Resolver.antt =====
-- Dev/Main/src/TransProxy/DomainResolver.h and DomainResolver.cpp: a fake address for each host that
-- goes through the proxy. The cache file is the list of its bytes.
pub mod File
pub mod Valid
pub mod Found
pub mod Names
pub mod Saved
pub mod Reload
pub mod Restart
pub mod Opens
mod Tests
use trans_proxy.Base.{
  ℕ, zero, suc, ◌+◌, ◌-◌, ◌*◌, ◌/◌, ◌%◌, ◌^◌, Bool, true, false, not, ◌&&◌, ◌||◌, Option, none,
  some, List, [], ◌∷◌, ◌++◌, ltb, ◌==◌, ◌!=◌, length, get_elem?, take, drop, if◌then◌else◌,
}
use trans_proxy.Map.{Item, leaf, ◌>>=◌}
use trans_proxy.Map.Api
use trans_proxy.Map.Api.{AvlMap}
use trans_proxy.Text.{Text}
use trans_proxy.Text.Order.{text_key}
use trans_proxy.Tcp.Server.{number_key}
use trans_proxy.Net.IpFilled
use trans_proxy.Resolver.File.{le_bytes, from_le, save_entry, c_string, read_entry}

pub record ResolvItem : Type 0 where
  pub name : Text
  pub ip : ℕ

-- The class `Rules`: what the resolver calls of an object that decides about hosts.
pub record Rules : Type 0 where
  pub accept_proxy : ℕ → Text → Bool
  pub deny_proxy : ℕ → Text → Bool

-- The fields that hold hosts. A `ResolvItem` is named by its place in `hosts`, and its two map items
-- carry that name.
pub record Hosts : Type 0 where
  pub ip : ℕ
  pub by_name : AvlMap Text
  pub by_ip : AvlMap ℕ
  pub hosts : List ResolvItem

-- `DomainResolver`. The last of the `rules` added comes first.
pub record Resolver : Type 0 where
  pub table : Hosts
  pub rules : List Rules
  pub file : Option (List ℕ)

abbrev pub fresh : ℕ → Hosts
fresh base = record {
  ip = base;
  by_name = record { named = true; root = leaf; size = 0 };
  by_ip = record { named = true; root = leaf; size = 0 };
  hosts = [];
}

-- `new ResolvItem (hostname, _ip++)` and the two calls of `add`.
unfoldable pub add_item : Text → Hosts → Option Hosts
unfolding Api.add
add_item name t = do
  let id = length t.hosts
  (_, by_name) ← Api.add t.by_name (record { id = id; key = name })
  (_, by_ip) ← Api.add t.by_ip (record { id = id; key = t.ip })
  some (record {
    ip = (t.ip + 1) % 2 ^ 32;
    by_name = by_name;
    by_ip = by_ip;
    hosts = t.hosts ++ (record { name = name; ip = t.ip } ∷ []);
  })

-- `_add`, and the address of the new host.
unfoldable pub add_host : Text → Resolver → Option (ℕ × Resolver)
unfolding add_item save_entry
add_host name r = do
  t ← add_item name r.table
  some (r.table.ip, record r { table = t; file = some (save_entry name r.table.ip r.file) })

unfoldable pub add_rules : Rules → Resolver → Resolver
add_rules x r = record r { rules = x ∷ r.rules }

-- `*_nameToIp.get (hostname)` and `*_ipToName.get (ip)`
unfoldable pub host_named : Text → Hosts → Option ResolvItem
unfolding Api.get
host_named name t = Api.get t.by_name.root name >>= λ x. get_elem? t.hosts x.id

unfoldable pub host_at : ℕ → Hosts → Option ResolvItem
unfolding Api.get
host_at ip t = Api.get t.by_ip.root ip >>= λ x. get_elem? t.hosts x.id

unfoldable pub add_unless : Option ResolvItem → Text → Resolver → Option Resolver
unfolding add_host
add_unless (some host) name r = some r
add_unless none name r = do (_, r') ← add_host name r; some r'

unfoldable pub add : Text → Resolver → Option Resolver
unfolding add_unless host_named
add name r = add_unless (host_named name r.table) name r

unfoldable pub any_denies : List Rules → ℕ → Text → Bool
any_denies [] client name = false
any_denies (x ∷ xs) client name =
    let rest = any_denies xs client name in if x.deny_proxy client name then true else rest

unfoldable pub any_accepts : List Rules → ℕ → Text → Bool
any_accepts [] client name = false
any_accepts (x ∷ xs) client name =
    let rest = any_accepts xs client name in if x.accept_proxy client name then true else rest

-- `host = *_nameToIp.get (hostname); if (host == NULL) host = _add (hostname);`
unfoldable pub known_or_new : Option ResolvItem → Text → Resolver → Option (ℕ × Resolver)
unfolding add_host
known_or_new (some host) name r = some (host.ip, r)
known_or_new none name r = add_host name r

-- `dns`: 0 for a host that does not go through the proxy.
unfoldable pub dns : ℕ → Text → Resolver → Option (ℕ × Resolver)
unfolding any_denies any_accepts known_or_new host_named
dns client name r =
    if any_denies r.rules client name
    then some (0, r)
    else if any_accepts r.rules client name
    then known_or_new (host_named name r.table) name r
    else some (0, r)

-- Dev/Main/src/Net/IPv4.h: `isLanIP`. The masks keep the upper bits.
unfoldable pub is_lan_ip : ℕ → Bool
is_lan_ip ip =
    (ip / 2 ^ 24 == 10) || (ip / 2 ^ 22 == 401) || (ip / 2 ^ 20 == 2753) || (ip / 2 ^ 16 == 49320)

-- `inet_ntoa`: the bytes in decimal.
abbrev pub digit : ℕ → ℕ
digit n = b'0' + n % 10

unfoldable pub decimal : ℕ → Text
decimal n =
    if ltb n 10
    then digit n ∷ []
    else if ltb n 100
    then digit (n / 10) ∷ digit n ∷ []
    else digit (n / 100) ∷ digit (n / 10) ∷ digit n ∷ []

unfoldable pub ntoa : ℕ → Text
unfolding decimal
ntoa ip =
    decimal (ip / 2 ^ 24 % 256)
    ++ (b'.' ∷ decimal (ip / 2 ^ 16 % 256))
    ++ (b'.' ∷ decimal (ip / 2 ^ 8 % 256))
    ++ (b'.' ∷ decimal (ip % 256))

unfoldable pub named_or_dotted : Option ResolvItem → ℕ → Option Text
unfolding is_lan_ip ntoa
named_or_dotted (some host) ip = some host.name
named_or_dotted none ip = if is_lan_ip ip then none else some (ntoa ip)

-- `ddns`: `none` stands for NULL.
unfoldable pub ddns : ℕ → Resolver → Option Text
unfolding named_or_dotted host_at
ddns ip r = named_or_dotted (host_at ip r.table) ip

-- What reading the cache comes to: the hosts read, those read before the label `ReadErr`, or an abort.
pub data Load : Type 0 where
  loaded : Hosts → Load
  read_err : Hosts → Load
  aborted : Load
  out_of_fuel : Load

abbrev pub or_aborted : Option Hosts → (Hosts → Load) → Load
or_aborted none k = aborted
or_aborted (some t) k = k t

-- A round of the loop over the file: what `fread` gives of an entry at `pos`, and the rest.
unfoldable pub load_entry : Option (Text × ℕ × List ℕ) → Hosts → (Hosts → List ℕ → Load) → Load
unfolding add_item c_string
load_entry none t next = read_err t
load_entry (some (name, ip, rest)) t next =
    if ip != t.ip then read_err t else or_aborted (add_item (c_string name) t) (λ t'. next t' rest)

-- The loop `while (ftell (fp) < size)`, over the bytes of the file from `pos` on.
unfoldable pub load_entries : ℕ → (size pos : ℕ) → List ℕ → Hosts → Load
unfolding load_entry read_entry
load_entries zero size pos bytes t = out_of_fuel
load_entries (suc fuel) size pos bytes t =
    let next : Hosts → List ℕ → Load =
      λ t' rest. load_entries fuel size (pos + (length bytes - length rest)) rest t' in
    if ltb pos size then load_entry (read_entry bytes) t next else loaded t

unfoldable pub load_file : ℕ → Option (List ℕ) → Load
unfolding load_entries from_le
load_file base none = loaded (fresh base)
load_file base (some bytes) =
    if ltb (length bytes) 8
    then read_err (fresh base)
    else load_entries (length bytes + 1) (from_le (take 8 bytes)) 8 (drop 8 bytes) (fresh base)

-- The constructor. At `ReadErr` the file goes and `clear` deletes the items; the items by address stand
-- inside of objects, and to delete such a one aborts.
unfoldable pub start : ℕ → Option (List ℕ) → Load → Option Resolver
start base file (loaded t) = some (record { table = t; rules = []; file = file })
start base file (read_err t) =
    if length t.hosts == 0
    then some (record { table = fresh base; rules = []; file = none })
    else none
start base file aborted = none
start base file out_of_fuel = none

unfoldable pub create : ℕ → Option (List ℕ) → Option Resolver
unfolding load_file start
create base file = start base file (load_file base file)
