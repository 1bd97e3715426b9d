-- ===== src/Server/Links.antt =====
-- my-telemetry-server/src/process_id_user_id_links.rs, permanent_users/permanent_users_list.rs and
-- flows/write_ready_metrics.rs: which client a process is of, and the clients the records get
-- before they are written.
pub mod Named
use my_telemetry_server.Base.{
  ℕ, ◌*◌, if◌then◌else◌, Bool, true, false, not, Option, none, some, List, [], ◌∷◌, ◌++◌, map,
  filter, any,
}
use my_telemetry_server.Base.Int.{ℤ, ◌-ℤ◌, eqb_ℤ, ltb_ℤ}
use my_telemetry_server.Base.Str.{Str, str_eq}
use my_telemetry_server.Storage.Rec.{Tag, Rec, client_id_tag}
use my_telemetry_server.Storage.Pending.{ReadyBucket}

-- `created_at` is in microseconds.
pub record ProcessIdUserIdLink : Type 0 where
  pub user_id : Str
  pub created_at : ℤ

-- The hash map, as an association list: its order is not looked at.
abbrev pub ProcessIdUserIdLinks : Type 0
ProcessIdUserIdLinks = List (ℤ × ProcessIdUserIdLink)

unfoldable pub link_of : ProcessIdUserIdLinks → ℤ → Option ProcessIdUserIdLink
link_of [] process_id = none
link_of (e ∷ es) process_id = if eqb_ℤ e.0 process_id then some e.1 else link_of es process_id

add_link : ProcessIdUserIdLinks → ℤ → Str → ℤ → Option ProcessIdUserIdLink → ProcessIdUserIdLinks
add_link links process_id user_id now none =
    (process_id, record { user_id = user_id; created_at = now }) ∷ links
add_link links process_id user_id now (some link) = links

-- The link of a process stays the first one made.
unfoldable pub update : ProcessIdUserIdLinks → ℤ → Str → ℤ → ProcessIdUserIdLinks
unfolding add_link
update links process_id user_id now =
    add_link links process_id user_id now (link_of links process_id)

-- `full_seconds` is `get_full_seconds` of the crate rust-extensions: the whole seconds of a span of
-- microseconds.
unfoldable pub gc : (ℤ → ℤ) → ProcessIdUserIdLinks → ℤ → ℤ → ProcessIdUserIdLinks
gc full_seconds links keep_seconds now =
    filter (λ e. ltb_ℤ (full_seconds (now -ℤ e.1.created_at)) keep_seconds) links

user_of : Option ProcessIdUserIdLink → Option Str
user_of none = none
user_of (some link) = some link.user_id

unfoldable pub resolve_user_id : ProcessIdUserIdLinks → ℤ → Option Str
unfolding user_of
resolve_user_id links process_id = user_of (link_of links process_id)

-- The client of the first `client_id` tag.
client_in : List Tag → Option Str
client_in [] = none
client_in (t ∷ ts) = if str_eq t.key client_id_tag then some t.value else client_in ts

unfoldable pub client_id_of : Rec → Option Str
unfolding client_in
client_id_of r = client_in r.tags

with_client_tag : Rec → Option Str → Rec
with_client_tag r none = r
with_client_tag r (some client_id) = record r {
  tags = r.tags ++ (record { key = client_id_tag; value = client_id } ∷ []);
}

named : ProcessIdUserIdLinks → Rec → Option Str → Rec
named links r (some client_id) = r
named links r none = with_client_tag r (resolve_user_id links r.process_id)

-- The first part of a round of `name_clients`.
unfoldable pub name_client : ProcessIdUserIdLinks → Rec → Rec
unfolding named with_client_tag
name_client links r = named links r (client_id_of r)

is_permanent : List Str → Option Str → Bool
is_permanent users none = false
is_permanent users (some client_id) = any (λ u. str_eq u client_id) users

name_bucket : ProcessIdUserIdLinks → ReadyBucket → ReadyBucket
name_bucket links b = record b { records = map (name_client links) b.records }

-- The buckets with their clients.
unfoldable pub name_clients : ProcessIdUserIdLinks → List ReadyBucket → List ReadyBucket
unfolding name_bucket
name_clients links ready = map (name_bucket links) ready

-- The records of the clients which are kept for good.
records_to_keep : List Str → List Rec → List Rec
records_to_keep users records = filter (λ r. is_permanent users (client_id_of r)) records

unfoldable pub permanent_metrics : List Str → List ReadyBucket → List Rec
unfolding records_to_keep is_permanent
permanent_metrics users [] = []
permanent_metrics users (b ∷ bs) = records_to_keep users b.records ++ permanent_metrics users bs
