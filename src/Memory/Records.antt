-- ===== src/Memory/Records.antt =====
-- The header and the records of edges in the file (src/core/fpsan_memory.h) are read back as they were written.
use engram_core.Prelude.{
  ℕ, ◌%◌, ◌^◌, ◌<◌, ◌≡◌, refl, List, [], ◌∷◌, ◌++◌, some, length, drop, map, append_assoc, All,
  arith,
}
use engram_core.Prelude.Float.{Float}
use engram_core.Graph.Node.{Edge, prov_unknown}
use engram_core.Memory.Wire.{
  Bytes, FloatImage, u32, get_u32, get_u32-u32, word_of, word_of-lt, int_of, int_of-word_of, IsInt,
  count_of, head_byte, fread-append,
}
use engram_core.Memory.{
  Header, encode_header, decode_header, header_size, edge_record_size, encode_edge, decode_edge,
  encode_edges, read_edges,
}

-- The counts of a header are words.
pub record IsHeader (h : Header) : Type 0 where
  pub magic : h.magic < 2 ^ 32
  pub version : h.version < 2 ^ 32
  pub nodes : h.node_count < 2 ^ 32
  pub clusters : h.cortex_active_count < 2 ^ 32
  pub alive : h.alive_node_count < 2 ^ 32

pub decode-encode_header : (h : Header) → IsHeader h → decode_header (encode_header h) ≡ h
unfolding decode_header encode_header u32 get_u32
decode-encode_header h v = ground arith

pub length-encode_header : (h : Header) → length (encode_header h) ≡ header_size
unfolding encode_header u32
length-encode_header h = refl

pub after_one : (a : ℕ) (rest : Bytes) → drop 4 (u32 a ++ rest) ≡ rest
unfolding u32
after_one a rest = refl

pub after_two : (a b : ℕ) (rest : Bytes) → drop 8 (u32 a ++ (u32 b ++ rest)) ≡ rest
unfolding u32
after_two a b rest = refl

pub after_three : (a b c : ℕ) (rest : Bytes) → drop 12 (u32 a ++ (u32 b ++ (u32 c ++ rest))) ≡ rest
unfolding u32
after_three a b c rest = refl

pub length-u32 : (a : ℕ) → length (u32 a) ≡ 4
unfolding u32
length-u32 a = refl

-- A count that is written as an `int32_t` is read back.
pub count_lem :
    (n : ℕ) (rest : Bytes) → n < 2 ^ 31 → count_of (int_of (get_u32 (u32 n ++ rest))) ≡ n
count_lem n rest h = rw (get_u32-u32 n rest (omega arith)) (ground arith)

module _ {F : Float} (img : FloatImage F) where
  -- The fields of an edge are in the range of the record's.
  pub record Fits (e : Edge F) : Type 0 where
    pub target : IsInt e.target
    pub weight : img.Single e.weight
    pub co_occur_count : e.co_occur_count < 2 ^ 31
    pub kind : e.kind < 256

  -- What the file keeps of an edge.
  abbrev pub forget : Edge F → Edge F
  forget e = record e { provenance = prov_unknown }

  decode-encode_edge : (e : Edge F) → Fits e → decode_edge img (encode_edge img e) ≡ forget e
  unfolding decode_edge encode_edge
  decode-encode_edge e v = λ i. record {
    target = target i;
    weight = weight i;
    co_occur_count = count i;
    kind = kind i;
    provenance = prov_unknown;
  }
    where
      target : int_of (get_u32 (encode_edge img e)) ≡ e.target
      target =
          rw (get_u32-u32 (word_of e.target) _ (word_of-lt e.target v.target))
            (int_of-word_of e.target v.target)

      weight : img.from_bits (get_u32 (drop 4 (encode_edge img e))) ≡ e.weight
      weight =
          rw
            (
              after_one (word_of e.target) (u32 (img.bits e.weight) ++ _),
              get_u32-u32 (img.bits e.weight) _ (img.bits_in_word e.weight v.weight),
            )
            (img.bits_back e.weight v.weight)

      count : count_of (int_of (get_u32 (drop 8 (encode_edge img e)))) ≡ e.co_occur_count
      count =
          rw (after_two (word_of e.target) (img.bits e.weight) (u32 e.co_occur_count ++ _))
            (count_lem e.co_occur_count _ v.co_occur_count)

      kind : head_byte (drop 12 (encode_edge img e)) ≡ e.kind
      kind =
          rw
            (after_three (word_of e.target) (img.bits e.weight) e.co_occur_count
              (e.kind % 256 ∷ 0 ∷ 0 ∷ 0 ∷ []))
            (omega arith)

  length-encode_edge : (e : Edge F) → length (encode_edge img e) ≡ edge_record_size
  unfolding encode_edge u32
  length-encode_edge e = refl

  pub read_edges-encode_edges :
      (es : List (Edge F)) (file : Bytes)
      → All Fits es
      → read_edges img (length es) (encode_edges img es ++ file) ≡ some (map forget es, file)
  unfolding read_edges encode_edges
  read_edges-encode_edges [] file v = refl
  read_edges-encode_edges (e ∷ es) file v = rw (
    append_assoc (encode_edge img e) (encode_edges img es) file,
    fread-append edge_record_size (encode_edge img e) (encode_edges img es ++ file)
        (length-encode_edge e),
    read_edges-encode_edges es file v.1,
    decode-encode_edge e v.0,
    read_edges,
  )
