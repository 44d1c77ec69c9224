-- ===== src/Scheduler/Queue.antt =====
-- The cells of the spike queue (src/core/fpsan_san_scheduler.h) against a bounded queue.
use engram_core.Prelude.{
  ℕ, zero, suc, ◌+◌, ◌%◌, ◌^◌, ◌≤◌, ◌<◌, ◌≡◌, ◌≢◌, refl, sym, ap, ◌∙◌, List, [], ◌∷◌, ◌++◌, true,
  false, none, some, ltb, leb, ◌==◌, update, update_self, update_ne, length, length-append,
  get_elem?, Bool-cases, inl, inr, arith,
}
use engram_core.Scheduler.{MpmcQueue, queue_capacity, diff, empty_queue, try_push, try_pop}

get_front :
    {A : Type 0} (xs : List A) (v : A) (k : ℕ)
    → k < length xs
    → get_elem? (xs ++ (v ∷ [])) k ≡ get_elem? xs k
get_front [] v k h = let no : ⊥ = omega arith in elim no [ ]
get_front (x ∷ xs) v zero h = refl
get_front (x ∷ xs) v (suc k) h = get_front xs v k (omega arith)

get_last : {A : Type 0} (xs : List A) (v : A) → get_elem? (xs ++ (v ∷ [])) (length xs) ≡ some v
get_last [] v = refl
get_last (x ∷ xs) v = get_last xs v

module _ {E : Type 0} where
  -- The cell `k` places behind the next one to be taken.
  abbrev pub cell : MpmcQueue E → ℕ → ℕ
  cell q k = (q.dequeue_pos + k) % queue_capacity

  -- The queue holds these events, oldest first.
  pub record Holds (q : MpmcQueue E) (xs : List E) : Type 0 where
    pub word : q.dequeue_pos < 2 ^ 32
    pub few : length xs ≤ queue_capacity
    pub window : q.enqueue_pos ≡ (q.dequeue_pos + length xs) % 2 ^ 32
    pub filled : (k : ℕ) → k < length xs → q.seq (cell q k) ≡ (q.dequeue_pos + k + 1) % 2 ^ 32
    pub vacant :
        (k : ℕ)
        → length xs ≤ k
        → k < queue_capacity
        → q.seq (cell q k) ≡ (q.dequeue_pos + k) % 2 ^ 32
    pub items : (k : ℕ) → k < length xs → get_elem? xs k ≡ some (q.cells (cell q k))

  pub empty_queue-Holds : (blank : E) → Holds (empty_queue blank) []
  unfolding empty_queue
  empty_queue-Holds blank = record {
    word = omega arith;
    few = omega arith;
    window = refl;
    filled = λ k h. omega arith;
    vacant = λ k h i. omega arith;
    items = λ k h. let no : ⊥ = omega arith in elim no [ ];
  }

  pushed : E → MpmcQueue E → MpmcQueue E
  pushed ev q = record q {
    enqueue_pos = (q.enqueue_pos + 1) % 2 ^ 32;
    cells = update q.cells (q.enqueue_pos % queue_capacity) ev;
    seq = update q.seq (q.enqueue_pos % queue_capacity) ((q.enqueue_pos + 1) % 2 ^ 32);
  }

  -- Two of the next `queue_capacity` places are different cells.
  cells_apart : (q : MpmcQueue E) (i j : ℕ) → i < j → j < queue_capacity → cell q i ≢ cell q j
  cells_apart q i j h k = omega arith

  end_cell :
      (q : MpmcQueue E) (xs : List E)
      → Holds q xs
      → q.enqueue_pos % queue_capacity ≡ cell q (length xs)
  end_cell q xs h = let w = h.window in omega arith

  pushed-Holds :
      (ev : E) (q : MpmcQueue E) (xs : List E)
      → Holds q xs
      → length xs < queue_capacity
      → Holds (pushed ev q) (xs ++ (ev ∷ []))
  unfolding pushed
  pushed-Holds ev q xs h room = record {
    word = h.word;
    few = rw (length-append xs (ev ∷ [])) (omega arith);
    window = let w = h.window in rw (length-append xs (ev ∷ [])) (omega arith);
    filled = λ k low.
        let below : k < length xs + 1 = omega (arith, low, length-append xs (ev ∷ [])) in
        elim (Bool-cases (ltb k (length xs))) [
          | inl old ↦
              update_ne q.seq (q.enqueue_pos % queue_capacity) (cell q k)
                ((q.enqueue_pos + 1) % 2 ^ 32)
                (λ e. cells_apart q k (length xs) (ground arith) room (e ∙ end_cell q xs h))
              ∙ h.filled k (ground arith)
          | inr new ↦
              let last : k ≡ length xs = ground arith in
              let w = h.window in
              ap (update q.seq (q.enqueue_pos % queue_capacity) ((q.enqueue_pos + 1) % 2 ^ 32))
                (ap (cell q) last ∙ sym (end_cell q xs h))
              ∙ update_self q.seq (q.enqueue_pos % queue_capacity) ((q.enqueue_pos + 1) % 2 ^ 32)
              ∙ omega arith
        ];
    vacant = λ k above low.
        let past : length xs < k = omega (arith, above, length-append xs (ev ∷ [])) in
        update_ne q.seq (q.enqueue_pos % queue_capacity) (cell q k) ((q.enqueue_pos + 1) % 2 ^ 32)
          (λ e. cells_apart q (length xs) k past low (sym (end_cell q xs h) ∙ sym e))
        ∙ h.vacant k (omega arith) low;
    items = λ k low.
        let below : k < length xs + 1 = omega (arith, low, length-append xs (ev ∷ [])) in
        elim (Bool-cases (ltb k (length xs))) [
          | inl old ↦
              get_front xs ev k (ground arith)
              ∙ h.items k (ground arith)
              ∙ ap some (
                  sym (
                    update_ne q.cells (q.enqueue_pos % queue_capacity) (cell q k) ev
                      (λ e. cells_apart q k (length xs) (ground arith) room (e ∙ end_cell q xs h))))
          | inr new ↦
              let last : k ≡ length xs = ground arith in
              ap (get_elem? (xs ++ (ev ∷ []))) last
              ∙ get_last xs ev
              ∙ ap some (
                  sym (
                    ap (update q.cells (q.enqueue_pos % queue_capacity) ev)
                      (ap (cell q) last ∙ sym (end_cell q xs h))
                    ∙ update_self q.cells (q.enqueue_pos % queue_capacity) ev))
        ];
  }

  popped : MpmcQueue E → MpmcQueue E
  popped q = record q {
    dequeue_pos = (q.dequeue_pos + 1) % 2 ^ 32;
    seq = update q.seq (q.dequeue_pos % queue_capacity) ((q.dequeue_pos + queue_capacity) % 2 ^ 32);
  }

  cell-popped : (q : MpmcQueue E) (k : ℕ) → cell (popped q) k ≡ cell q (suc k)
  unfolding popped
  cell-popped q k = omega arith

  front_cell : (q : MpmcQueue E) → q.dequeue_pos % queue_capacity ≡ cell q 0
  front_cell q = omega arith

  popped-Holds : (q : MpmcQueue E) (x : E) (xs : List E) → Holds q (x ∷ xs) → Holds (popped q) xs
  popped-Holds q x xs h = record {
    word = unfold popped in omega arith;
    few = let f = h.few in omega arith;
    window = let w = h.window in unfold popped in omega arith;
    filled = λ k low.
        ap (popped q).seq (cell-popped q k)
        ∙ kept (suc k) (omega arith) (let f = h.few in omega arith)
        ∙ h.filled (suc k) (omega arith)
        ∙ (unfold popped in omega arith);
    vacant = λ k above low. elim (Bool-cases (ltb (suc k) queue_capacity)) [
      | inl inside ↦
          ap (popped q).seq (cell-popped q k)
          ∙ kept (suc k) (omega arith) (ground arith)
          ∙ h.vacant (suc k) (omega arith) (ground arith)
          ∙ (unfold popped in omega arith)
      | inr edge ↦
          let last : suc k ≡ queue_capacity = ground arith in
          ap (popped q).seq (cell-popped q k ∙ wrapped k last)
          ∙ (unfold popped in
              update_self q.seq (q.dequeue_pos % queue_capacity)
                ((q.dequeue_pos + queue_capacity) % 2 ^ 32)
              ∙ omega arith)
    ];
    items = λ k low.
        h.items (suc k) (omega arith)
        ∙ ap some (unfold popped in ap q.cells (sym (cell-popped q k)));
  }
    where
      kept : (j : ℕ) → 0 < j → j < queue_capacity → (popped q).seq (cell q j) ≡ q.seq (cell q j)
      kept j pos low =
          unfold popped in
          update_ne q.seq (q.dequeue_pos % queue_capacity) (cell q j)
            ((q.dequeue_pos + queue_capacity) % 2 ^ 32)
            (λ e. cells_apart q 0 j pos low (sym (front_cell q) ∙ sym e))

      wrapped : (k : ℕ) → suc k ≡ queue_capacity → cell q (suc k) ≡ q.dequeue_pos % queue_capacity
      wrapped k last = omega arith

  -- Alone, a push on a queue that holds `xs` always ends: it appends the event while there is room, and
  -- else it answers false and changes nothing, wherever the positions have wrapped to.
  pub try_push_refines :
      (ev : E) (q : MpmcQueue E) (xs : List E)
      → Holds q xs
      → (length xs < queue_capacity
          → (q' : MpmcQueue E) × (try_push ev q ≡ some (q', true)) × Holds q' (xs ++ (ev ∷ [])))
        × (length xs ≡ queue_capacity → try_push ev q ≡ some (q, false))
  unfolding try_push
  try_push_refines ev q xs h =
      (λ room. (pushed ev q, accepted room, pushed-Holds ev q xs h room), λ full. refused full)
    where
      accepted : length xs < queue_capacity → try_push ev q ≡ some (pushed ev q, true)
      accepted room =
          let w = h.window in
          let turn : q.seq (q.enqueue_pos % queue_capacity) ≡ q.enqueue_pos =
            ap q.seq (end_cell q xs h) ∙ h.vacant (length xs) (omega arith) room ∙ sym w in
          let zero_diff : (diff (q.seq (q.enqueue_pos % queue_capacity)) q.enqueue_pos == 0)
              ≡ true =
            rw turn (ground arith) in
          unfold pushed in rw (try_push, zero_diff) refl

      refused : length xs ≡ queue_capacity → try_push ev q ≡ some (q, false)
      refused full =
          let w = h.window in
          let back : q.enqueue_pos % queue_capacity ≡ cell q 0 = omega arith in
          let turn : q.seq (q.enqueue_pos % queue_capacity) ≡ (q.dequeue_pos + 0 + 1) % 2 ^ 32 =
            ap q.seq back ∙ h.filled 0 (omega arith) in
          let word = h.word in
          let some_diff : (diff (q.seq (q.enqueue_pos % queue_capacity)) q.enqueue_pos == 0)
              ≡ false =
            rw turn (ground arith) in
          let negative : leb (2 ^ 31) (diff (q.seq (q.enqueue_pos % queue_capacity)) q.enqueue_pos)
              ≡ true =
            rw turn (ground arith) in
          rw (try_push, some_diff, negative) refl

  -- Alone, a pop always ends: it takes the oldest event, and on an empty queue it answers false and
  -- changes nothing.
  pub try_pop_refines :
      (q : MpmcQueue E)
      → (Holds q [] → try_pop q ≡ some (q, none))
        × ((x : E) (xs : List E)
            → Holds q (x ∷ xs)
            → (q' : MpmcQueue E) × (try_pop q ≡ some (q', some x)) × Holds q' xs)
  unfolding try_pop
  try_pop_refines q = (idle, λ x xs h. (popped q, taken x xs h, popped-Holds q x xs h))
    where
      idle : Holds q [] → try_pop q ≡ some (q, none)
      idle h =
          let word = h.word in
          let turn : q.seq (q.dequeue_pos % queue_capacity) ≡ (q.dequeue_pos + 0) % 2 ^ 32 =
            ap q.seq (front_cell q) ∙ h.vacant 0 (omega arith) (omega arith) in
          let some_diff : (diff (q.seq (q.dequeue_pos % queue_capacity))
                  ((q.dequeue_pos + 1) % 2 ^ 32)
                == 0)
              ≡ false =
            rw turn (ground arith) in
          let negative : leb (2 ^ 31)
                (diff (q.seq (q.dequeue_pos % queue_capacity)) ((q.dequeue_pos + 1) % 2 ^ 32))
              ≡ true =
            rw turn (ground arith) in
          rw (try_pop, some_diff, negative) refl

      taken : (x : E) (xs : List E) → Holds q (x ∷ xs) → try_pop q ≡ some (popped q, some x)
      taken x xs h =
          let turn : q.seq (q.dequeue_pos % queue_capacity) ≡ (q.dequeue_pos + 0 + 1) % 2 ^ 32 =
            ap q.seq (front_cell q) ∙ h.filled 0 (omega arith) in
          let zero_diff : (diff (q.seq (q.dequeue_pos % queue_capacity))
                  ((q.dequeue_pos + 1) % 2 ^ 32)
                == 0)
              ≡ true =
            rw turn (ground arith) in
          let front : some x ≡ some (q.cells (q.dequeue_pos % queue_capacity)) =
            h.items 0 (omega arith) ∙ ap (λ c. some (q.cells c)) (sym (front_cell q)) in
          rw front (unfold popped in rw (try_pop, zero_diff) refl)
