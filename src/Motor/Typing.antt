-- ===== src/Motor/Typing.antt =====
-- What `type_string` (src/core/fpsan_motor.h) has typed when it returns.
use engram_core.Prelude.{
  ℕ, ◌≡◌, ◌∙◌, refl, sym, ap, ◌⊎◌, inl, inr, List, [], ◌∷◌, ◌++◌, append_assoc, append-nil, Bool,
  true, false, ◌==◌, if◌then◌else◌, Bool-cases, Text,
}
use engram_core.Motor.Thread.{
  World, Thread, Sent, key_down, key_up, look, check_kill_switch, send_key, vk_return, typed_events,
  type_char, type_loop, type_string,
}
use engram_core.Motor.Killed.{
  NoReset, Silent, look_killed, check_kill_switch_killed, check_kill_switch_lem,
}

abbrev pub char_events : ℕ → List Sent
char_events c = if c == b'\n' then key_down vk_return ∷ key_up vk_return ∷ [] else typed_events c

-- The whole string as events.
abbrev pub events_of : Text → List Sent
events_of [] = []
events_of (c ∷ str) = char_events c ++ events_of str

-- What was sent on the way from `t` is a beginning of the string, and the whole of it if the answer
-- is true and the kill switch is off.
abbrev pub TypedPart : Text → Thread → Thread × Bool → Type 0
TypedPart str t (t', done) =
    (out : List Sent) × (rest : List Sent) × (events_of str ≡ out ++ rest)
    × (t'.sent ≡ t.sent ++ out)
    × (done ≡ true → t'.killed ≡ false → rest ≡ [])

-- A round stops and sends nothing; or it sends its character and goes on; or it goes on with the
-- kill switch on, having sent nothing.
abbrev Round : ℕ → Thread → Thread × Bool → Type 0
Round c t (t', more) =
    (more ≡ false) × (t'.sent ≡ t.sent)
    ⊎ ((more ≡ true) × (t'.sent ≡ t.sent ++ char_events c) ⊎ (more ≡ true) × Silent t t')

send_key-Sends :
    (w : World) (vkey : ℕ) (t : Thread)
    → ((send_key w vkey t).0.sent ≡ t.sent ++ (key_down vkey ∷ key_up vkey ∷ []))
      ⊎ Silent t (send_key w vkey t).0
unfolding send_key
send_key-Sends w vkey t =
    let check = check_kill_switch_lem w t in
    elim (Bool-cases (check_kill_switch w t).1) [
      | inl stop ↦ inr (rw stop (check.0, sym check.1 ∙ stop))
      | inr go ↦ inl (rw go (ap (λ k. k ++ (key_down vkey ∷ key_up vkey ∷ [])) check.0))
    ]

type_char-Round :
    (w : World) (epoch target c : ℕ) (t : Thread) → Round c t (type_char w epoch target c t)
unfolding type_char
type_char-Round w epoch target c t =
    let loaded = look w t in
    let check = check_kill_switch_lem w loaded in
    let checked = (check_kill_switch w loaded).0 in
    elim (Bool-cases (epoch == loaded.current_motor_epoch)) [
      | inr stale ↦ rw stale (inl (refl, refl))
      | inl current ↦ elim (Bool-cases (check_kill_switch w loaded).1) [
        | inl stop ↦ rw (current, stop) (inl (refl, check.0))
        | inr go ↦ elim (Bool-cases (w.foreground checked.clock == target)) [
          | inr lost ↦ rw (current, go, lost) (inl (refl, check.0))
          | inl kept ↦ elim (Bool-cases (c == b'\n')) [
            | inr plain ↦
                rw (current, go, kept, plain)
                  (inr (inl (refl, ap (λ k. k ++ typed_events c) check.0)))
            | inl newline ↦ elim (send_key-Sends w vk_return (look w checked)) [
              | inl sent ↦
                  rw (current, go, kept, newline)
                    (inr (
                      inl (
                        refl,
                        sent ∙ ap (λ k. k ++ (key_down vk_return ∷ key_up vk_return ∷ [])) check.0,
                      )))
              | inr silent ↦
                  rw (current, go, kept, newline) (inr (inr (refl, (silent.0 ∙ check.0, silent.1))))
            ]
          ]
        ]
      ]
    ]

type_char_killed :
    (w : World) (epoch target c : ℕ) (t : Thread)
    → NoReset w
    → t.killed ≡ true
    → ((type_char w epoch target c t).1 ≡ false) × Silent t (type_char w epoch target c t).0
unfolding type_char
type_char_killed w epoch target c t quiet on =
    let loaded = look w t in
    let still = look_killed w t quiet on in
    let check = check_kill_switch_killed w loaded quiet still in
    elim (Bool-cases (epoch == loaded.current_motor_epoch)) [
      | inr stale ↦ rw stale (refl, (unfold look in refl, still))
      | inl current ↦ rw (current, check.0) (refl, unfold look in check.1)
    ]

type_loop_killed :
    (w : World) (epoch target : ℕ) (str : Text) (t : Thread)
    → NoReset w
    → t.killed ≡ true
    → Silent t (type_loop w epoch target str t).0
unfolding type_loop
type_loop_killed w epoch target [] t quiet on = (refl, on)
type_loop_killed w epoch target (c ∷ str) t quiet on =
    let round = type_char_killed w epoch target c t quiet on in rw round.0 round.1

type_loop-TypedPart :
    (w : World) (epoch target : ℕ) (str : Text) (t : Thread)
    → NoReset w
    → TypedPart str t (type_loop w epoch target str t)
unfolding type_loop
type_loop-TypedPart w epoch target [] t quiet = ([], [], refl, sym (append-nil t.sent), λ d k. refl)
type_loop-TypedPart w epoch target (c ∷ str) t quiet =
    let t' = (type_char w epoch target c t).0 in
    elim (type_char-Round w epoch target c t) [
      | inl stopped ↦
          rw stopped.0
            ([], events_of (c ∷ str), refl, stopped.1 ∙ sym (append-nil t.sent), λ d k. cc)
      | inr (inl typed) ↦
          let tail = type_loop-TypedPart w epoch target str t' quiet in
          rw typed.0 (
            char_events c ++ tail.0,
            tail.1,
            ap (λ k. char_events c ++ k) tail.2 ∙ sym (append_assoc (char_events c) tail.0 tail.1),
            tail.3 ∙ ap (λ k. k ++ tail.0) typed.1 ∙ append_assoc t.sent (char_events c) tail.0,
            tail.4,
          )
      | inr (inr killed) ↦
          let tail = type_loop_killed w epoch target str t' quiet killed.1.1 in
          rw killed.0 (
            [],
            events_of (c ∷ str),
            refl,
            tail.0 ∙ killed.1.0 ∙ sym (append-nil t.sent),
            λ d k. cc (tail.1),
          )
    ]

-- As long as the main thread does not reset the kill switch meanwhile, and whatever else happens: when
-- `type_string` returns, it has sent a beginning of the string's key events; where it answers true with
-- the kill switch off, it has sent them all.
pub type_string-TypedPart :
    (w : World) (str : Text) (epoch : ℕ) (t : Thread)
    → NoReset w
    → TypedPart str t (type_string w str epoch t)
unfolding type_string
type_string-TypedPart w str epoch t quiet =
    let check = check_kill_switch_lem w t in
    let checked = (check_kill_switch w t).0 in
    elim (Bool-cases (check_kill_switch w t).1) [
      | inl stop ↦ rw stop ([], events_of str, refl, check.0 ∙ sym (append-nil t.sent), λ d k. cc)
      | inr go ↦
          let all =
            type_loop-TypedPart w epoch (w.foreground checked.clock) str (look w checked) quiet in
          rw go (all.0, all.1, all.2, all.3 ∙ ap (λ k. k ++ all.0) check.0, all.4)
    ]
