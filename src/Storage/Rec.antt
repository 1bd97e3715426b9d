-- ===== src/Storage/Rec.antt =====
-- The messages of the proto `writer` (proto-files), as the storage keeps them:
-- my-telemetry-server/src/metrics_storage/metric_block.rs (`Rec`, `time_of`) and query.rs.
use my_telemetry_server.Base.{
  Option, none, some, List, [], ◌∷◌, Bool, true, false, not, ◌&&◌, ◌||◌, if◌then◌else◌,
}
use my_telemetry_server.Base.Int.{ℤ, ltb_ℤ, eqb_ℤ}
use my_telemetry_server.Base.Str.{Str, str_eq, bytes_of}

pub record Tag : Type 0 where
  pub key : Str
  pub value : Str

pub record Rec : Type 0 where
  pub process_id : ℤ
  pub started_at : ℤ
  pub finished_at : ℤ
  pub service_name : Str
  pub event_data : Str
  pub success : Option Str
  pub fail : Option Str
  pub tags : List Tag

abbrev pub time_of : Rec → ℤ
time_of r = r.started_at

abbrev pub client_id_tag : Str
client_id_tag = bytes_of "client_id"

abbrev pub user_id_tag : Str
user_id_tag = bytes_of "user_id"

pub data MetricsQuery : Type 0 where
  action : Str → Str → Option Str → ℤ → MetricsQuery
  process : ℤ → MetricsQuery

has_client_tag : Str → List Tag → Bool
has_client_tag client_id [] = false
has_client_tag client_id (t ∷ ts) =
    (str_eq t.key client_id_tag && str_eq t.value client_id) || has_client_tag client_id ts

has_client : Option Str → List Tag → Bool
has_client none tags = true
has_client (some client_id) tags = has_client_tag client_id tags

unfoldable pub matches : MetricsQuery → Rec → Bool
unfolding has_client has_client_tag
matches (action name act client_id from) r =
    if not (str_eq r.service_name name) || not (str_eq r.event_data act) || ltb_ℤ r.started_at from
    then false
    else has_client client_id r.tags
matches (process process_id) r = eqb_ℤ r.process_id process_id
