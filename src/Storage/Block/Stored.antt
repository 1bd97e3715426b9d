-- ===== src/Storage/Block/Stored.antt =====
-- What `compress_records` of metric_block.rs is to make of records: blocks which read back, and what is
-- left of each record in them.
use my_telemetry_server.Base.{
  ℕ, ◌+◌, ◌≤◌, ◌<◌, ◌≡◌, sym, ap, subst, ◌∙◌, Option, some, List, [], ◌∷◌, ◌++◌, length,
  append_assoc,
}
use my_telemetry_server.Base.Result.{ok}
use my_telemetry_server.Storage.Varint.{Varint}
use my_telemetry_server.Storage.Frame.{max_entry_body_len}
use my_telemetry_server.Storage.Entry.{parse_entry}
use my_telemetry_server.Storage.Rec.{Rec, time_of}
use my_telemetry_server.Storage.Block.{
  Codec, CompressedBlock, nothing_left, cut, shrink, decompress_records,
}
use my_telemetry_server.Storage.Block.RoundTrip.{Sent}

-- What is stored of one record: itself, itself cut, or nothing.
pub data KeptOne : Rec → List Rec → Type 0 where
  whole : {r : Rec} → KeptOne r (r ∷ [])
  dropped : {r : Rec} → shrink r ≡ nothing_left → KeptOne r []
  shortened : {r r' : Rec} {ks : List Rec} → shrink r ≡ cut r' → KeptOne r' ks → KeptOne r ks

-- What is stored of records, in their order.
pub data Kept : List Rec → List Rec → Type 0 where
  none_left : Kept [] []
  one_more : (r : Rec) (rs ks ms : List Rec) → KeptOne r ks → Kept rs ms → Kept (r ∷ rs) (ks ++ ms)

pub Kept_all : (rs : List Rec) → Kept rs rs
Kept_all [] = none_left
Kept_all (r ∷ rs) = one_more r rs (r ∷ []) rs whole (Kept_all rs)

pub Kept-append : {rs ks ss ms : List Rec} → Kept rs ks → Kept ss ms → Kept (rs ++ ss) (ks ++ ms)
Kept-append none_left b = b
Kept-append {ss = ss} {ms = ms} (one_more r rs ks ls one a) b =
    subst (Kept (r ∷ (rs ++ ss))) (sym (append_assoc ks ls ms))
      (one_more r (rs ++ ss) ks (ls ++ ms) one (Kept-append a b))

module _ (varint : Varint) (codec : Codec) where
  -- An entry of the records: its time is the time of the first one, and it reads back as them.
  pub record IsBlock (b : CompressedBlock) (r : Rec) (rs : List Rec) : Type 0 where
    pub payload : List ℕ
    pub parses :
        parse_entry varint b.entry 0
        ≡ ok (record { len = length b.entry; time = time_of r; payload = payload })
    pub reads : decompress_records varint codec payload ≡ some (ok (r ∷ rs))
    pub counts : b.records ≡ length (r ∷ rs)
    pub some_bytes : 0 < length b.entry
    pub fits : length b.entry ≤ max_entry_body_len + 5

  -- Blocks one after another, of these records.
  abbrev pub AreBlocks : List CompressedBlock → List Rec → Type 0
  AreBlocks [] ks = ks ≡ []
  AreBlocks (b ∷ bs) ks =
      (r : Rec) × (rs : List Rec) × (ms : List Rec) × (ks ≡ (r ∷ rs) ++ ms)
      × IsBlock b r rs
      × AreBlocks bs ms

  pub AreBlocks-append :
      (bs cs : List CompressedBlock) (ks ms : List Rec)
      → AreBlocks bs ks
      → AreBlocks cs ms
      → AreBlocks (bs ++ cs) (ks ++ ms)
  AreBlocks-append [] cs ks ms e c = rw e c
  AreBlocks-append (b ∷ bs) cs ks ms (r, rs, ls, e, is, more) c = (
    r,
    rs,
    ls ++ ms,
    ap (λ l. l ++ ms) e ∙ append_assoc (r ∷ rs) ls ms,
    is,
    AreBlocks-append bs cs ls ms more c,
  )

  module _ (sent : Sent codec) where
    -- The records are stored: none of them is lost on the way.
    pub record Stored (rs : List Rec) (result : Option (List CompressedBlock)) : Type 0 where
      pub blocks : List CompressedBlock
      pub returns : result ≡ some blocks
      pub kept : List Rec
      pub is_kept : Kept rs kept
      pub are_blocks : AreBlocks blocks kept
