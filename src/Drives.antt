-- ===== src/Drives.antt =====
-- The drives of src/core/fpsan_drives.h: the levels, their timing, and the list of unknown words. A
-- string is the list of its bytes before the terminator, and `unknown_words` holds the rows below
-- `unknown_word_count`.
use engram_core.Prelude.{
  Text, same_text, ℕ, zero, suc, ◌+◌, ◌-◌, ◌%◌, ◌^◌, List, [], ◌∷◌, ◌++◌, Bool, true, false, ◌&&◌,
  ◌||◌, not, Option, none, some, ltb, ◌==◌, if◌then◌else◌, length, take,
}
use engram_core.Prelude.Float.{Float, fmin, fmax}
pub mod Words
pub mod Goals

unfoldable pub tracked : Text → List Text → Bool
unfolding same_text
tracked w [] = false
tracked w (x ∷ xs) = same_text x w || tracked w xs

-- `strncpy` copies 63 bytes at most.
unfoldable pub track : Text → List Text → List Text
unfolding tracked
track w ws = if tracked w ws then ws else if ltb (length ws) 8 then ws ++ (take 63 w ∷ []) else ws

-- The last row, and the rows before it.
unfoldable pub split_last : Text → List Text → List Text × Text
split_last w [] = ([], w)
split_last w (x ∷ xs) = let (front, last) = split_last x xs in (w ∷ front, last)

-- The difference of two `uint64_t`.
unfoldable pub since : ℕ → ℕ → ℕ
since current past = (current + 2 ^ 64 - past % 2 ^ 64) % 2 ^ 64

pub record HomeostaticDrives (F : Float) : Type 0 where
  pub curiosity : F.Carrier
  pub boredom : F.Carrier
  pub engagement : F.Carrier
  pub frustration : F.Carrier
  pub doubt : F.Carrier
  pub satisfaction : F.Carrier
  pub last_input_tick : ℕ
  pub last_spoke_tick : ℕ
  pub last_visual_tick : ℕ
  pub last_goal_tick : ℕ
  pub ticks_since_input : ℕ
  pub unknown_words : List Text

module _ (F : Float) where
  open F use {Carrier, add, sub, mul, lit}

  -- `if (x > 1.0f) x = 1.0f;` and `if (x < 0.0f) x = 0.0f;`.
  unfoldable pub capped : Carrier → Carrier
  capped x = if F.ltb (lit 1 1) x then lit 1 1 else x

  unfoldable pub floored : Carrier → Carrier
  floored x = if F.ltb x (lit 0 1) then lit 0 1 else x

  unfoldable pub fresh_drives : HomeostaticDrives F
  fresh_drives = record {
    curiosity = lit 0 1;
    boredom = lit 0 1;
    engagement = lit 1 2;
    frustration = lit 0 1;
    doubt = lit 0 1;
    satisfaction = lit 0 1;
    last_input_tick = 0;
    last_spoke_tick = 0;
    last_visual_tick = 0;
    last_goal_tick = 0;
    ticks_since_input = 0;
    unknown_words = [];
  }

  -- `BOREDOM_RATE`, `CURIOSITY_DECAY` and `ENGAGE_DECAY`.
  unfoldable pub drives_tick : ℕ → HomeostaticDrives F → HomeostaticDrives F
  unfolding capped floored since
  drives_tick now d = record d {
    ticks_since_input = since now d.last_input_tick;
    boredom = capped (add d.boredom (lit 2 100000));
    curiosity = floored (sub d.curiosity (lit 1 100000));
    engagement = floored (sub d.engagement (lit 5 100000));
    frustration = floored (sub d.frustration (lit 1 100000));
    doubt = floored (sub d.doubt (mul (lit 1 100000) (lit 1 2)));
    satisfaction = floored (sub d.satisfaction (mul (lit 1 100000) (lit 2 1)));
  }

  unfoldable pub on_contradiction : HomeostaticDrives F → HomeostaticDrives F
  on_contradiction d = record d {
    doubt = fmin F (lit 1 1) (add d.doubt (lit 4 10));
    curiosity = fmin F (lit 1 1) (add d.curiosity (lit 2 10));
    satisfaction = fmax F (lit 0 1) (sub d.satisfaction (lit 3 10));
  }

  unfoldable pub on_confirmed : HomeostaticDrives F → HomeostaticDrives F
  on_confirmed d = record d {
    satisfaction = fmin F (lit 1 1) (add d.satisfaction (lit 3 10));
    doubt = fmax F (lit 0 1) (sub d.doubt (lit 1 10));
  }

  unfoldable pub on_user_input : ℕ → HomeostaticDrives F → HomeostaticDrives F
  unfolding capped
  on_user_input now d = record d {
    last_input_tick = now;
    ticks_since_input = 0;
    boredom = mul d.boredom (lit 3 10);
    engagement = capped (add d.engagement (lit 3 10));
  }

  unfoldable pub on_unknown_word : Text → HomeostaticDrives F → HomeostaticDrives F
  unfolding capped track
  on_unknown_word w d = record d {
    curiosity = capped (add d.curiosity (lit 1 4));
    unknown_words = track w d.unknown_words;
  }

  unfoldable pub on_learned : HomeostaticDrives F → HomeostaticDrives F
  unfolding capped
  on_learned d = record d {
    curiosity = mul d.curiosity (lit 1 2);
    engagement = capped (add d.engagement (lit 1 10));
  }

  unfoldable pub on_visual_change : ℕ → HomeostaticDrives F → HomeostaticDrives F
  on_visual_change now d = record d { last_visual_tick = now; boredom = mul d.boredom (lit 7 10) }

  unfoldable pub on_goal_failed : HomeostaticDrives F → HomeostaticDrives F
  unfolding capped
  on_goal_failed d = record d { frustration = capped (add d.frustration (lit 3 10)) }

  -- `SPEAK_COOLDOWN` is the float 15000, which compares to a tick count as the number does.
  unfoldable pub cooling_down : ℕ → HomeostaticDrives F → Bool
  unfolding since
  cooling_down now d = ltb (since now d.last_spoke_tick) 15000

  unfoldable pub should_ask_question : ℕ → HomeostaticDrives F → Bool
  unfolding cooling_down
  should_ask_question now d =
      F.leb (lit 1 2) d.curiosity && (not (length d.unknown_words == 0) && not (cooling_down now d))

  unfoldable pub should_spontaneous_speak : ℕ → HomeostaticDrives F → Bool
  unfolding cooling_down
  should_spontaneous_speak now d = F.leb (lit 6 10) d.boredom && not (cooling_down now d)

  -- The youngest word, which leaves the list.
  unfoldable pub pop_question : HomeostaticDrives F → HomeostaticDrives F × Option Text
  unfolding split_last
  pop_question d = elim d.unknown_words [
    | [] ↦ (d, none)
    | w ∷ ws ↦
        let (front, last) = split_last w ws in (record d { unknown_words = front }, some last)
  ]

  unfoldable pub on_spoke : ℕ → HomeostaticDrives F → HomeostaticDrives F
  on_spoke now d = record d { last_spoke_tick = now; boredom = mul d.boredom (lit 1 2) }

  unfoldable pub should_fetch_knowledge : Carrier → HomeostaticDrives F → Bool
  should_fetch_knowledge confidence d =
      F.leb (lit 1 2) d.curiosity
      && (F.ltb confidence (lit 5 100) && not (length d.unknown_words == 0))

  -- The oldest word, cut to 63 bytes; the rows behind it move up.
  unfoldable pub pop_fetch_topic : HomeostaticDrives F → HomeostaticDrives F × Option Text
  pop_fetch_topic d = elim d.unknown_words [
    | [] ↦ (d, none)
    | w ∷ ws ↦ (record d { unknown_words = ws }, some (take 63 w))
  ]

  unfoldable pub on_knowledge_ingested : ℕ → HomeostaticDrives F → HomeostaticDrives F
  unfolding capped floored
  on_knowledge_ingested facts d = record d {
    curiosity = floored (sub d.curiosity (mul (lit 3 10) (lit facts 1)));
    engagement = capped (add d.engagement (mul (lit 15 100) (lit facts 1)));
  }
