-- ===== src/Memory/NodeBlock.antt =====
-- The block of nodes in the file (src/core/fpsan_memory.h) is read back as it was written.
use engram_core.Prelude.{
  ℕ, zero, suc, ◌+◌, ◌^◌, ◌≤◌, ◌<◌, ◌≡◌, ◌∙◌, refl, sym, ap, inl, inr, ◌++◌, Bool, true, false,
  ◌&&◌, some, ltb, leb, ◌==◌, if◌then◌else◌, in_range, length, drop, map, update, update_if, All,
  arith, Bool-cases, lt→ltb, ==_iff,
}
use engram_core.Prelude.Float.{Float}
use engram_core.Graph.Node.{Node}
use engram_core.Memory.Wire.{Bytes, FloatImage, u32, get_u32, int_of, count_of, fread-append}
use engram_core.Memory.{
  encode_node, node_record_size, count_from, encode_edges, node_block, restore_node, read_nodes,
}
use engram_core.Memory.Records.{Fits, forget, read_edges-encode_edges}

node_record_lem :
    (a b c : ℕ)
    → a < 2 ^ 32
    → b < 2 ^ 32
    → c < 2 ^ 32
    → (get_u32 (encode_node a b c) ≡ a)
      × (get_u32 (drop 4 (encode_node a b c)) ≡ b)
      × (get_u32 (drop 8 (encode_node a b c)) ≡ c)
      × (length (encode_node a b c) ≡ node_record_size)
unfolding encode_node u32 get_u32
node_record_lem a b c ha hb hc = (omega arith, omega arith, omega arith, refl)

-- A small word is a count, and an index if it is in range.
pub count_small : (n : ℕ) → n < 2 ^ 31 → count_of (int_of n) ≡ n
count_small n h = ground arith

index_small : (n count : ℕ) → n < count → count < 2 ^ 31 → in_range count (int_of n) ≡ some n
index_small n count h k = rw (lt→ltb n (2 ^ 31) (omega arith), lt→ltb n count h)

module _ {F : Float} (img : FloatImage F) where
  -- The nodes that are restored, in the order of their records.
  abbrev pub kept : Node F → Node F → Node F
  kept src dst = restore_node (map (forget img) src.edges) (map (forget img) src.inverse_edges) dst

  unfoldable pub restored_nodes : (ℕ → Node F) → ℕ → ℕ → (ℕ → Node F) → ℕ → Node F
  restored_nodes src i zero out = out
  restored_nodes src i (suc n) out =
      restored_nodes src (i + 1) n
        (if (src i).alive then update out i (kept (src i) (out i)) else out)

  -- A live node has edges that fit, and counts that fit.
  pub record FitsNode (n : Node F) : Type 0 where
    pub edges_fit : All (Fits img) n.edges
    pub inverse_fit : All (Fits img) n.inverse_edges
    pub edge_count : length n.edges < 2 ^ 31
    pub inverse_edge_count : length n.inverse_edges < 2 ^ 31

  abbrev pub AllNodes : (ℕ → Node F) → Type 0
  AllNodes src = (i : ℕ) → (src i).alive ≡ true → FitsNode (src i)

  abbrev node_bytes : ℕ → Node F → Bytes → Bytes
  node_bytes i n rest =
      encode_node i (length n.edges) (length n.inverse_edges)
      ++ (encode_edges img n.edges ++ (encode_edges img n.inverse_edges ++ rest))

  read_one_node :
      (src : Node F) (n i node_count : ℕ) (file : Bytes) (out : ℕ → Node F)
      → FitsNode src
      → i < node_count
      → node_count < 2 ^ 31
      → read_nodes img (suc n) node_count (node_bytes i src file) out
        ≡ read_nodes img n node_count file (update out i (kept src (out i)))
  unfolding read_nodes
  read_one_node src n i node_count file out v h small =
      let ec = length src.edges in
      let iec = length src.inverse_edges in
      let fields = node_record_lem i ec iec (omega arith) (omega arith) (omega arith) in
      rw (
        fread-append node_record_size (encode_node i ec iec)
            (encode_edges img src.edges ++ (encode_edges img src.inverse_edges ++ file)) fields.3,
        fields.0,
        index_small i node_count h small,
        fields.1,
        count_small ec v.edge_count,
        read_edges-encode_edges img src.edges (encode_edges img src.inverse_edges ++ file)
            v.edges_fit,
        fields.2,
        count_small iec v.inverse_edge_count,
        read_edges-encode_edges img src.inverse_edges file v.inverse_fit,
        read_nodes,
      )

  pub read_nodes-node_block :
      (src : ℕ → Node F) (n i node_count : ℕ) (out : ℕ → Node F)
      → AllNodes src
      → i + n ≤ node_count
      → node_count < 2 ^ 31
      → read_nodes img (count_from (λ k. (src k).alive) i n) node_count (node_block img src i n) out
        ≡ some (restored_nodes src i n out)
  unfolding node_block count_from restored_nodes
  read_nodes-node_block src zero i node_count out v h small = unfold read_nodes in refl
  read_nodes-node_block src (suc n) i node_count out v h small =
      go (src i).alive refl
        (λ o. read_nodes-node_block src n (i + 1) node_count o v (omega arith) small)
    where
      rest : Bytes
      rest = node_block img src (i + 1) n

      more : ℕ
      more = count_from (λ k. (src k).alive) (i + 1) n

      go :
          (b : Bool)
          → (src i).alive ≡ b
          → ((o : ℕ → Node F)
              → read_nodes img more node_count rest o ≡ some (restored_nodes src (i + 1) n o))
          → read_nodes img
              (if b then suc more else more)
              node_count
              (if b then node_bytes i (src i) rest else rest)
              out
            ≡ some (
                restored_nodes src
                  (i + 1)
                  n
                  (if b then update out i (kept (src i) (out i)) else out))
      go false dead ih = ih out
      go true live ih =
          read_one_node (src i) more i node_count rest out (v i live) (omega arith) small
          ∙ ih (update out i (kept (src i) (out i)))

  -- A slot among the first `n + 1` from `i` on is the first of them or a later one.
  step_slot :
      (src : ℕ → Node F) (n i j : ℕ) (f : ℕ → Node F → Node F) (w o : Node F)
      → (j ≡ i → w ≡ f j o)
      → (let x = if (src i).alive && (j == i) then w else o in
          if leb (i + 1) j && (ltb j (i + 1 + n) && (src j).alive) then f j x else x)
        ≡ (if leb i j && (ltb j (i + suc n) && (src j).alive) then f j o else o)
  step_slot src n i j f w o here = elim (Bool-cases (j == i)) [
    | inl same ↦ let e = (==_iff j i).0 same in let v = here e in rw (v, e) (ground arith)
    | inr other ↦ ground arith
  ]

  -- What stands at each slot afterwards.
  pub restored_nodes_lem :
      (src : ℕ → Node F) (n i j : ℕ) (out : ℕ → Node F)
      → restored_nodes src i n out j
        ≡ (if leb i j && (ltb j (i + n) && (src j).alive) then kept (src j) (out j) else out j)
  unfolding restored_nodes
  restored_nodes_lem src zero i j out =
      let e : (leb i j && (ltb j (i + 0) && (src j).alive)) ≡ false = ground arith in rw e
  restored_nodes_lem src (suc n) i j out =
      let first = kept (src i) (out i) in
      rw
        (
          restored_nodes_lem src n (i + 1) j (if (src i).alive then update out i first else out),
          update_if (src i).alive out i j first,
        )
        (step_slot src n i j (λ k x. kept (src k) x) first (out j)
          (λ e. ap (λ k. kept (src k) (out k)) (sym e)))
