-- ===== src/Server/Links/Named.antt =====
-- The clients the records get, and that nothing else of the records changes.
use my_telemetry_server.Base.{
  ℕ, ◌+◌, ◌≤◌, ◌≡◌, refl, sym, ap, subst, ◌∙◌, arith, max, Bool, Bool-cases, inl, inr, Option, none,
  some, List, [], ◌∷◌, ◌++◌, map, All, length, length-append, take, take-length-append, count_if,
  count_if-append,
}
use my_telemetry_server.Base.Int.{ℤ, eqb_ℤ, div_euclid}
use my_telemetry_server.Base.Str.{Str, str_eq, str_eq_refl}
use my_telemetry_server.Storage.Rec.{Tag, Rec, client_id_tag, time_of, matches, process}
use my_telemetry_server.Storage.Retention.{micros_per_second}
use my_telemetry_server.Storage.Pending.{ReadyBucket, PendingMetrics, Arc, take_ready}
use my_telemetry_server.Storage.Pending.Valid.{IsOf, IsKept, IsValid}
use my_telemetry_server.Storage.Pending.Ready.{IsReadyOf, take_ready_keeps}
use my_telemetry_server.Storage.Pending.Takes.{ready_count, all_records}
use my_telemetry_server.Server.Links.{
  ProcessIdUserIdLinks, resolve_user_id, client_in, client_id_of, with_client_tag, named,
  name_client, name_bucket, name_clients,
}

client_in_snoc :
    (ts : List Tag) (client_id : Str)
    → client_in ts ≡ none
    → client_in (ts ++ (record { key = client_id_tag; value = client_id } ∷ [])) ≡ some client_id
unfolding client_in
client_in_snoc [] client_id h = rw (str_eq_refl client_id_tag) refl
client_in_snoc (t ∷ ts) client_id h = ground (arith, client_in_snoc ts client_id)

-- The first of the two which is there.
abbrev pub or_else : Option Str → Option Str → Option Str
or_else (some c) o = some c
or_else none o = o

abbrev pub is_client_tag : Tag → Bool
is_client_tag t = str_eq t.key client_id_tag

abbrev pub count_of : Option Str → ℕ
count_of none = 0
count_of (some c) = 1

-- A record has a `client_id` tag when it names a client, and only then.
client_in-count :
    (ts : List Tag) (c : Option Str) → client_in ts ≡ c → count_of c ≤ count_if is_client_tag ts
unfolding client_in
client_in-count [] c e = rw (sym e) (omega arith)
client_in-count (t ∷ ts) c e = elim (Bool-cases (is_client_tag t)) [
  | inl k ↦ rw (sym (rw k at e), k) (omega arith)
  | inr k ↦ rw k (client_in-count ts c (rw k at e))
]

client_in-none-count : (ts : List Tag) → client_in ts ≡ none → count_if is_client_tag ts ≡ 0
unfolding client_in
client_in-none-count [] e = refl
client_in-none-count (t ∷ ts) e = elim (Bool-cases (is_client_tag t)) [
  | inl k ↦ absurd (cc (rw k at e))
  | inr k ↦ rw k (client_in-none-count ts (rw k at e))
]

-- The record with its client named, on what its tags say and what its process is linked to.
record IsNamed (r r' : Rec) (c o : Option Str) : Type 0 where
  client : client_id_of r' ≡ or_else c o
  tags_once :
      count_if is_client_tag r'.tags ≡ max (count_if is_client_tag r.tags) (count_of (or_else c o))
  others_none :
      length r'.tags + count_if is_client_tag r.tags
      ≡ length r.tags + count_if is_client_tag r'.tags
  tags_stay : take (length r.tags) r'.tags ≡ r.tags
  rest_stays : record r' { tags = r.tags } ≡ r

take_all : (ts : List Tag) → take (length ts) ts ≡ ts
take_all [] = refl
take_all (t ∷ ts) = ap (λ l. t ∷ l) (take_all ts)

one_more :
    (ts : List Tag) (client_id : Str)
    → length (ts ++ (record { key = client_id_tag; value = client_id } ∷ []))
        + count_if is_client_tag ts
      ≡ length ts
        + count_if is_client_tag (ts ++ (record { key = client_id_tag; value = client_id } ∷ []))
one_more ts client_id =
    rw
      (
        count_if-append is_client_tag ts (record { key = client_id_tag; value = client_id } ∷ []),
        str_eq_refl client_id_tag,
      )
      (omega (arith, length-append ts (record { key = client_id_tag; value = client_id } ∷ [])))

named-IsNamed :
    (links : ProcessIdUserIdLinks) (r : Rec) (c o : Option Str)
    → client_id_of r ≡ c
    → resolve_user_id links r.process_id ≡ o
    → IsNamed r (named links r c) c o
unfolding named with_client_tag client_id_of
named-IsNamed links r (some client_id) o h k = record {
  client = h;
  tags_once = omega (arith, client_in-count r.tags (some client_id) h);
  others_none = refl;
  tags_stay = take_all r.tags;
  rest_stays = refl;
}
named-IsNamed links r none none h k = rw k (record {
  client = h;
  tags_once = omega arith;
  others_none = refl;
  tags_stay = take_all r.tags;
  rest_stays = refl;
})
named-IsNamed links r none (some client_id) h k = rw k (record {
  client = client_in_snoc r.tags client_id h;
  tags_once =
      count_if-append is_client_tag r.tags (record { key = client_id_tag; value = client_id } ∷ [])
      ∙ rw (str_eq_refl client_id_tag) (omega (arith, client_in-none-count r.tags h));
  others_none = one_more r.tags client_id;
  tags_stay = take-length-append r.tags (record { key = client_id_tag; value = client_id } ∷ []);
  rest_stays = refl;
})

-- A record which is written names the client it named, and when it named none the client of its
-- process, when that is linked to one. It has as many `client_id` tags as it had, and one when it had
-- none and there is a client: the tag is put once, after the tags the record came with, no other tag is
-- put, and nothing else of the record changes.
pub client_id_of-name_client :
    (links : ProcessIdUserIdLinks) (r : Rec)
    → (client_id_of (name_client links r)
        ≡ or_else (client_id_of r) (resolve_user_id links r.process_id))
      × (count_if is_client_tag (name_client links r).tags
          ≡ max
              (count_if is_client_tag r.tags)
              (count_of (or_else (client_id_of r) (resolve_user_id links r.process_id))))
      × (length (name_client links r).tags + count_if is_client_tag r.tags
          ≡ length r.tags + count_if is_client_tag (name_client links r).tags)
      × (take (length r.tags) (name_client links r).tags ≡ r.tags)
      × (record (name_client links r) { tags = r.tags } ≡ r)
unfolding name_client
client_id_of-name_client links r =
    let n : IsNamed r (named links r (client_id_of r)) (client_id_of r)
        (resolve_user_id links r.process_id) =
      named-IsNamed links r (client_id_of r) (resolve_user_id links r.process_id) refl refl in
    (n.client, n.tags_once, n.others_none, n.tags_stay, n.rest_stays)

same_but_tags :
    (links : ProcessIdUserIdLinks) (r : Rec) (c o : Option Str)
    → resolve_user_id links r.process_id ≡ o
    → (time_of (named links r c) ≡ time_of r) × ((named links r c).process_id ≡ r.process_id)
unfolding named with_client_tag
same_but_tags links r (some client_id) o k = (refl, refl)
same_but_tags links r none none k = rw k (refl, refl)
same_but_tags links r none (some client_id) k = rw k (refl, refl)

name_client_same :
    (links : ProcessIdUserIdLinks) (r : Rec)
    → (time_of (name_client links r) ≡ time_of r)
      × ((name_client links r).process_id ≡ r.process_id)
unfolding name_client
name_client_same links r =
    same_but_tags links r (client_id_of r) (resolve_user_id links r.process_id) refl

IsOf-name_client :
    (links : ProcessIdUserIdLinks) (second : ℤ) (rs : List Rec)
    → All (IsOf second) rs
    → All (IsOf second) (map (name_client links) rs)
IsOf-name_client links second [] h = record {}
IsOf-name_client links second (r ∷ rs) h =
    let same : time_of (name_client links r) ≡ time_of r = (name_client_same links r).0 in
    (
      subst (λ t. (div_euclid t micros_per_second ≡ second) × IsKept t) (sym same) h.0,
      IsOf-name_client links second rs h.1,
    )

of_process_same :
    (links : ProcessIdUserIdLinks) (process_id : ℤ) (r : Rec)
    → matches (process process_id) (name_client links r) ≡ matches (process process_id) r
unfolding matches
of_process_same links process_id r = ap (λ p. eqb_ℤ p process_id) (name_client_same links r).1

count-name_client :
    (links : ProcessIdUserIdLinks) (process_id : ℤ) (rs : List Rec)
    → count_if (matches (process process_id)) (map (name_client links) rs)
      ≡ count_if (matches (process process_id)) rs
count-name_client links process_id [] = refl
count-name_client links process_id (r ∷ rs) =
    ground (arith, of_process_same links process_id r, count-name_client links process_id rs)

ready_count-name_clients :
    (links : ProcessIdUserIdLinks) (process_id : ℤ) (bs : List ReadyBucket)
    → ready_count (matches (process process_id)) (name_clients links bs)
      ≡ ready_count (matches (process process_id)) bs
unfolding name_clients name_bucket
ready_count-name_clients links process_id [] = refl
ready_count-name_clients links process_id (b ∷ bs) = omega (
  arith,
  count-name_client links process_id b.records,
  ready_count-name_clients links process_id bs,
)

name_clients-IsReadyOf :
    (links : ProcessIdUserIdLinks) (bs : List ReadyBucket)
    → All IsReadyOf bs
    → All IsReadyOf (name_clients links bs)
unfolding name_clients name_bucket
name_clients-IsReadyOf links [] h = record {}
name_clients-IsReadyOf links (b ∷ bs) h =
    (IsOf-name_client links b.second b.records h.0, name_clients-IsReadyOf links bs h.1)

-- Taking the seconds to be written, with the clients given to their records as it is done, loses
-- no event of a process: a trace finds as many of them as before.
pub take_ready-name_clients :
    (p : PendingMetrics) (now window : ℕ) (all : Bool) (links : ProcessIdUserIdLinks)
    (process_id : ℤ)
    → IsValid p
    → (ready : List (Arc ReadyBucket)) × (q : PendingMetrics) × (take_ready p now window all
          (name_clients links)
        ≡ some (ready, q))
      × IsValid q
      × (count_if (matches (process process_id)) (all_records q)
          ≡ count_if (matches (process process_id)) (all_records p))
take_ready-name_clients p now window all links process_id v =
    let (ready, q, eq, w, count, back) =
      take_ready_keeps p now window all (name_clients links) (matches (process process_id)) v
        (record {
          keeps_count = ready_count-name_clients links process_id;
          keeps_seconds = name_clients-IsReadyOf links;
        }) in
    (ready, q, eq, w, count)
