-- ===== src/Server/Metric/RoundTrip.antt =====
-- A metric put on disk and read again is the metric.
use my_telemetry_server.Base.{
  ◌≡◌, ◌≢◌, refl, sym, ap, ap₂, ◌∙◌, arith, false, Option, none, some, List, [], ◌∷◌, ◌++◌, All,
  append_assoc, append-nil, Bool-cases, inl, inr,
}
use my_telemetry_server.Base.Int.{ℤ, pos, negsuc, ◌+ℤ◌, ◌-ℤ◌, saturate, InI64, int_laws}
use my_telemetry_server.Base.Str.{Str, str_eq, str_eq_refl}
use my_telemetry_server.Storage.Rec.{Tag, Rec, client_id_tag, user_id_tag}
use my_telemetry_server.Server.Metric.{
  MetricTagsResult, push_tag, take_tag, take_tags, get_tags, from_grpc_event, dto_tags, with_client,
  into_event,
}

-- A tag which names no client.
abbrev pub IsPlain : Tag → Type 0
IsPlain t = (str_eq t.key user_id_tag ≡ false) × (str_eq t.key client_id_tag ≡ false)

-- The tags of a metric name no client, and there are some when there is a list of them.
abbrev pub ArePlain : Option (List Tag) → Type 0
ArePlain none = Unit
ArePlain (some ts) = All IsPlain ts × (ts ≢ [])

append-ne : (ts : List Tag) (t : Tag) → ts ++ (t ∷ []) ≢ []
append-ne [] t e = absurd (cc (e))
append-ne (x ∷ xs) t e = absurd (cc (e))

All_snoc : (ts : List Tag) (t : Tag) → All IsPlain ts → IsPlain t → All IsPlain (ts ++ (t ∷ []))
All_snoc [] t h p = (p, record {})
All_snoc (x ∷ xs) t h p = (h.0, All_snoc xs t h.1 p)

push_tag-ArePlain :
    (o : Option (List Tag)) (t : Tag) → ArePlain o → IsPlain t → ArePlain (push_tag o t)
unfolding push_tag
push_tag-ArePlain none t h p = ((p, record {}), append-ne [] t)
push_tag-ArePlain (some ts) t h p = (All_snoc ts t h.0 p, append-ne ts t)

take_tag-ArePlain :
    (r : MetricTagsResult) (t : Tag) → ArePlain r.tags → ArePlain (take_tag r t).tags
unfolding take_tag
take_tag-ArePlain r t h = elim (Bool-cases (str_eq t.key user_id_tag)) [
  | inl u ↦ rw u h
  | inr u ↦ elim (Bool-cases (str_eq t.key client_id_tag)) [
    | inl c ↦ rw (u, c) h
    | inr c ↦ rw (u, c) (push_tag-ArePlain r.tags t h (u, c))
  ]
]

take_tags-ArePlain :
    (ts : List Tag) (r : MetricTagsResult) → ArePlain r.tags → ArePlain (take_tags r ts).tags
unfolding take_tags
take_tags-ArePlain [] r h = h
take_tags-ArePlain (t ∷ ts) r h = take_tags-ArePlain ts (take_tag r t) (take_tag-ArePlain r t h)

-- Plain tags are taken as they are.
append_tags : Option (List Tag) → List Tag → Option (List Tag)
append_tags o [] = o
append_tags o (t ∷ ts) = append_tags (push_tag o t) ts

take_tag_plain :
    (t : Tag) (r : MetricTagsResult)
    → IsPlain t
    → take_tag r t ≡ record r { tags = push_tag r.tags t }
unfolding take_tag
take_tag_plain t r h = rw (h.0, h.1) refl

take_tags_plain :
    (ts rest : List Tag) (r : MetricTagsResult)
    → All IsPlain ts
    → take_tags r (ts ++ rest) ≡ take_tags (record r { tags = append_tags r.tags ts }) rest
unfolding take_tags append_tags
take_tags_plain [] rest r h = refl
take_tags_plain (t ∷ ts) rest r h =
    ap (λ x. take_tags x (ts ++ rest)) (take_tag_plain t r h.0)
    ∙ take_tags_plain ts rest (record r { tags = push_tag r.tags t }) h.1

append_tags-some : (ts us : List Tag) → append_tags (some us) ts ≡ some (us ++ ts)
unfolding append_tags push_tag
append_tags-some [] us = ap some (sym (append-nil us))
append_tags-some (t ∷ ts) us =
    append_tags-some ts (us ++ (t ∷ [])) ∙ ap some (append_assoc us (t ∷ []) ts)

append_tags_all : (o : Option (List Tag)) → ArePlain o → append_tags none (dto_tags o) ≡ o
unfolding append_tags push_tag dto_tags
append_tags_all none h = refl
append_tags_all (some []) h = absurd (h.1 refl)
append_tags_all (some (t ∷ ts)) h = append_tags-some ts (t ∷ [])

dto_tags-IsPlain : (o : Option (List Tag)) → ArePlain o → All IsPlain (dto_tags o)
unfolding dto_tags
dto_tags-IsPlain none h = record {}
dto_tags-IsPlain (some ts) h = h.0

client_is_client : str_eq client_id_tag user_id_tag ≡ false
unfolding str_eq
client_is_client = refl

take_client :
    (tags : Option (List Tag)) (c : Option Str)
    → take_tags (record { tags = tags; client_id = none }) (with_client [] c)
      ≡ record { tags = tags; client_id = c }
unfolding take_tags take_tag with_client
take_client tags none = refl
take_client tags (some c) = rw (client_is_client, str_eq_refl client_id_tag) refl

with_client-append : (ts : List Tag) (c : Option Str) → with_client ts c ≡ ts ++ with_client [] c
unfolding with_client
with_client-append ts none = sym (append-nil ts)
with_client-append ts (some c) = refl

get_tags_back :
    (tags : Option (List Tag)) (c : Option Str)
    → ArePlain tags
    → get_tags (some (with_client (dto_tags tags) c)) ≡ record { tags = tags; client_id = c }
unfolding get_tags
get_tags_back tags c h =
    ap (take_tags (record { tags = none; client_id = none })) (with_client-append (dto_tags tags) c)
    ∙ take_tags_plain (dto_tags tags) (with_client [] c) (record { tags = none; client_id = none })
        (dto_tags-IsPlain tags h)
    ∙ ap (λ o. take_tags (record { tags = o; client_id = none }) (with_client [] c))
        (append_tags_all tags h)
    ∙ take_client tags c

saturate_lem : (z : ℤ) → InI64 z → saturate z ≡ z
unfolding saturate
saturate_lem (pos n) h = ground arith
saturate_lem (negsuc n) h = ground arith

-- How long the event took is kept when the difference of its times is an `i64`.
duration_back :
    (started finished : ℤ)
    → InI64 finished
    → InI64 (finished -ℤ started)
    → saturate (saturate (started +ℤ saturate (finished -ℤ started)) -ℤ started)
      ≡ saturate (finished -ℤ started)
duration_back started finished f d =
    let sum : started +ℤ (finished -ℤ started) ≡ finished = omega int_laws in
    ap (λ x. saturate (saturate (started +ℤ x) -ℤ started)) (saturate_lem (finished -ℤ started) d)
    ∙ ap (λ x. saturate (saturate x -ℤ started)) sum
    ∙ ap (λ x. saturate (x -ℤ started)) (saturate_lem finished f)

get_tags-ArePlain : (ts : List Tag) → ArePlain (get_tags (some ts)).tags
unfolding get_tags
get_tags-ArePlain ts = take_tags-ArePlain ts (record { tags = none; client_id = none }) (record {})

-- A metric which came over the wire, put on disk and read again, is the metric, its client, its
-- tags and how long it took included - when the difference of its times is an `i64`.
pub from_grpc_event-into_event :
    (event : Rec) (scope : Str)
    → InI64 event.finished_at
    → InI64 (event.finished_at -ℤ event.started_at)
    → from_grpc_event (into_event (from_grpc_event event scope)) scope ≡ from_grpc_event event scope
unfolding from_grpc_event into_event
from_grpc_event-into_event event scope f d =
    let r : MetricTagsResult = get_tags (some event.tags) in
    ap₂
      (λ duration tags. record {
        scope = scope;
        id = event.process_id;
        started = event.started_at;
        duration_micro = duration;
        name = event.service_name;
        «data» = event.event_data;
        success = event.success;
        fail = event.fail;
        tags = tags.tags;
        client_id = tags.client_id;
      })
      (duration_back event.started_at event.finished_at f d)
      (get_tags_back r.tags r.client_id (get_tags-ArePlain event.tags))
