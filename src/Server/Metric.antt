-- ===== src/Server/Metric.antt =====
-- my-telemetry-server/src/mappers/metric_tags.rs and metrics.rs: an event of the wire and the metric
-- the server makes of it.
pub mod RoundTrip
use my_telemetry_server.Base.{
  if◌then◌else◌, Bool, true, false, Option, none, some, List, [], ◌∷◌, ◌++◌, map,
}
use my_telemetry_server.Base.Int.{ℤ, ◌+ℤ◌, ◌-ℤ◌, saturate}
use my_telemetry_server.Base.Str.{Str, str_eq}
use my_telemetry_server.Storage.Rec.{Tag, Rec, client_id_tag, user_id_tag}

pub record MetricDto : Type 0 where
  pub scope : Str
  pub id : ℤ
  pub started : ℤ
  pub duration_micro : ℤ
  pub name : Str
  pub «data» : Str
  pub success : Option Str
  pub fail : Option Str
  pub tags : Option (List Tag)
  pub client_id : Option Str

pub record MetricTagsResult : Type 0 where
  pub tags : Option (List Tag)
  pub client_id : Option Str

-- The tags with one more at their end: the first one makes the list.
push_tag : Option (List Tag) → Tag → Option (List Tag)
push_tag none t = some (t ∷ [])
push_tag (some ts) t = some (ts ++ (t ∷ []))

-- A round of the loop of `get`.
unfoldable pub take_tag : MetricTagsResult → Tag → MetricTagsResult
unfolding push_tag
take_tag result t =
    if str_eq t.key user_id_tag
    then record result { client_id = some t.value }
    else if str_eq t.key client_id_tag
    then record result { client_id = some t.value }
    else record result { tags = push_tag result.tags t }

unfoldable pub take_tags : MetricTagsResult → List Tag → MetricTagsResult
take_tags result [] = result
take_tags result (t ∷ ts) = take_tags (take_tag result t) ts

unfoldable pub get_tags : Option (List Tag) → MetricTagsResult
get_tags none = record { tags = none; client_id = none }
get_tags (some src) = take_tags (record { tags = none; client_id = none }) src

unfoldable pub from_grpc_event : Rec → Str → MetricDto
from_grpc_event event scope =
    let metric_tags : MetricTagsResult = get_tags (some event.tags) in
    record {
      scope = scope;
      id = event.process_id;
      started = event.started_at;
      duration_micro = saturate (event.finished_at -ℤ event.started_at);
      name = event.service_name;
      «data» = event.event_data;
      success = event.success;
      fail = event.fail;
      tags = metric_tags.tags;
      client_id = metric_tags.client_id;
    }

dto_tags : Option (List Tag) → List Tag
dto_tags none = []
dto_tags (some ts) = ts

with_client : List Tag → Option Str → List Tag
with_client ts none = ts
with_client ts (some client_id) = ts ++ (record { key = client_id_tag; value = client_id } ∷ [])

unfoldable pub into_event : MetricDto → Rec
unfolding dto_tags with_client
into_event m = record {
  process_id = m.id;
  started_at = m.started;
  finished_at = saturate (m.started +ℤ m.duration_micro);
  service_name = m.name;
  event_data = m.«data»;
  success = m.success;
  fail = m.fail;
  tags = with_client (dto_tags m.tags) m.client_id;
}
