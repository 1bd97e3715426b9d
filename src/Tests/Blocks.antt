-- ===== src/Tests/Blocks.antt =====
-- A codec which knows one record, and the blocks of it.
use my_telemetry_server.Base.{◌≡◌, refl, sym, ap, subst, ◌∙◌, arith, none, some, [], ◌∷◌}
use my_telemetry_server.Base.Int.{pos, InI64}
use my_telemetry_server.Base.Str.{bytes_of}
use my_telemetry_server.Storage.Rec.{Rec, time_of, client_id_tag}
use my_telemetry_server.Storage.Block.{
  Codec, shrink, nothing_left, cut, compress_records, text_len, longest_tag, longest_len, droppable,
}
use my_telemetry_server.Storage.Block.Shrink.{Shrinks, shrink-Shrinks}
use my_telemetry_server.Storage.Block.RoundTrip.{Sent}
use my_telemetry_server.Storage.Block.Stored.{Stored}
use my_telemetry_server.Storage.Block.Cuts.{compress_records-Stored}
use my_telemetry_server.Tests.Samples.{four_bytes}

-- It has nothing to cut.
abbrev pub small_rec : Rec
small_rec = record {
  process_id = pos 7;
  started_at = pos 7;
  finished_at = pos 9;
  service_name = bytes_of "api";
  event_data = bytes_of "GET";
  success = none;
  fail = none;
  tags = [];
}

abbrev pub one_codec : Codec
one_codec = record {
  encode = λ r. 1 ∷ [];
  decode = λ bytes. some small_rec;
  compress = λ raw. raw;
  decompress = λ bytes. some bytes;
  decompresses = λ raw. refl;
}

small_rec-nothing_left : shrink small_rec ≡ nothing_left
unfolding shrink text_len longest_tag longest_len droppable
small_rec-nothing_left = refl

cut-ne-nothing_left : (r : Rec) → nothing_left ≡ cut r → ⊥
cut-ne-nothing_left r e = cc (e)

pub small_rec_stays : (r r' : Rec) → r ≡ small_rec → shrink r ≡ cut r' → r' ≡ small_rec
small_rec_stays r r' is e =
    absurd (cut-ne-nothing_left r' (sym (ap shrink is ∙ small_rec-nothing_left) ∙ e))

abbrev pub one_sent : Sent one_codec
one_sent = record {
  IsSent = λ r. r ≡ small_rec;
  decodes = λ r is. ap (λ x. some x) (sym is);
  is_short = λ r is. omega arith;
  has_time = λ r is. subst (λ x. InI64 (time_of x)) (sym is) (omega arith);
  stays = small_rec_stays;
}

compress_records-Stored_example :
    Stored four_bytes one_codec one_sent
      (small_rec ∷ small_rec ∷ [])
      (compress_records four_bytes one_codec (small_rec ∷ small_rec ∷ []))
compress_records-Stored_example =
    compress_records-Stored four_bytes one_codec one_sent (small_rec ∷ small_rec ∷ [])
      (refl, (refl, tt))

-- One of its tags goes, and not the one a search filters on.
abbrev tagged_rec : Rec
tagged_rec = record small_rec {
  tags =
      record { key = bytes_of "a"; value = bytes_of "1" }
      ∷ record { key = client_id_tag; value = bytes_of "client" }
      ∷ [];
}

shrink-Shrinks_example : Shrinks tagged_rec (shrink tagged_rec)
shrink-Shrinks_example = shrink-Shrinks tagged_rec
