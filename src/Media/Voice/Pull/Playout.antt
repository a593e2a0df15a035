-- ===== src/Media/Voice/Pull/Playout.antt =====
-- What the loop of `pull` plays: it ends, and its slots come in seq order.
use crowdy_cpp.Base.{
  ℕ, zero, suc, ◌+◌, ◌%◌, ◌^◌, ◌≡◌, ◌≤◌, ◌<◌, inl, inr, refl, sym, ◌∙◌, true, false, Option, none,
  some, List, [], ◌∷◌, Bool-cases, Option-cases, arith, ℕ_discrete, subst,
}
use crowdy_cpp.Base.Int.{ℤ, pos, negsuc, lebℤ, ◌+ℤ◌, ◌-ℤ◌, pos_part}
use crowdy_cpp.Base.Maps.{lookup, erase}
use crowdy_cpp.Media.Voice.Stream.{Held, Stream}
use crowdy_cpp.Media.Voice.Pull.{VoicePlayout, play, is_due, cons_slot, pull_loop}

closer :
    (now at : ℤ) (ms : ℕ)
    → 1 ≤ ms
    → lebℤ at now ≡ true
    → lebℤ (at +ℤ pos ms) now ≡ true
    → suc (pos_part (now -ℤ (at +ℤ pos ms))) ≤ pos_part (now -ℤ at)
closer (pos n) (pos a) ms h d d' = ground arith
closer (pos n) (negsuc a) ms h d d' = ground arith
closer (negsuc n) (pos a) ms h d d' = ground arith
closer (negsuc n) (negsuc a) ms h d d' = ground arith

module _ {K : Type 0} (key : K) (now silent_at : ℤ) where
  loop_stops :
      (fuel : ℕ) (st : Stream)
      → is_due now silent_at st ≡ false
      → pull_loop (suc fuel) key now silent_at st ≡ some ([], st)
  unfolding pull_loop
  loop_stops fuel st e = rw e refl

  loop_plays :
      (fuel : ℕ) (st : Stream)
      → is_due now silent_at st ≡ true
      → pull_loop (suc fuel) key now silent_at st
        ≡ cons_slot (play key st).0 (pull_loop fuel key now silent_at (play key st).1)
  unfolding pull_loop
  loop_plays fuel st e = rw e refl

  due_now : (st : Stream) → is_due now silent_at st ≡ true → lebℤ st.next_at_ms now ≡ true
  due_now st e = elim (Bool-cases (lebℤ st.next_at_ms now)) [
    | inl yes_due ↦ yes_due
    | inr later ↦ ground (arith, later)
  ]

  cons_slot-some :
      (slot : VoicePlayout K) (o : Option (List (VoicePlayout K) × Stream))
      → (r : List (VoicePlayout K) × Stream) × (o ≡ some r)
      → (r : List (VoicePlayout K) × Stream) × (cons_slot slot o ≡ some r)
  cons_slot-some slot none (r, e) = absurd (cc e)
  cons_slot-some slot (some q) (r, e) = ((slot ∷ q.0, q.1), refl)

  -- Enough fuel: two rounds more than the milliseconds by which the next slot is due.
  pub pull_loop_total :
      (fuel : ℕ) (st : Stream)
      → 1 ≤ st.frame_ms
      → (lebℤ st.next_at_ms now ≡ true → suc (suc (pos_part (now -ℤ st.next_at_ms))) ≤ suc fuel)
      → (r : List (VoicePlayout K) × Stream) × (pull_loop (suc fuel) key now silent_at st ≡ some r)
  unfolding play
  pull_loop_total zero st ms h = elim (Bool-cases (is_due now silent_at st)) [
    | inr over ↦ (([], st), loop_stops zero st over)
    | inl due ↦ absurd (omega (arith, h (due_now st due)))
  ]
  pull_loop_total (suc fuel) st ms h = elim (Bool-cases (is_due now silent_at st)) [
    | inr over ↦ (([], st), loop_stops (suc fuel) st over)
    | inl due ↦
        let rest = pull_loop_total fuel (play key st).1 ms (λ d. omega (
          arith,
          closer now st.next_at_ms st.frame_ms ms (due_now st due) d,
          h (due_now st due),
        )) in
        let (r, e) = cons_slot-some (play key st).0 _ rest in (r, loop_plays (suc fuel) st due ∙ e)
  ]

-- The slots carry `seq`, `seq` + 1, ... on the wrapping counter.
abbrev pub IsInOrder : {K : Type 0} → ℕ → List (VoicePlayout K) → Type 0
IsInOrder seq [] = Unit {0}
IsInOrder seq (slot ∷ slots) = (slot.seq ≡ seq % 2 ^ 16) × IsInOrder (seq + 1) slots

-- The slot of a missing frame, which is a gap without data, and that of a frame that is held.
abbrev pub IsSlotOf : {K : Type 0} → Option Held → VoicePlayout K → Type 0
IsSlotOf none slot = (slot.gap ≡ true) × (slot.frame ≡ [])
IsSlotOf (some h) slot =
    (slot.gap ≡ false)
    × (slot.frame ≡ h.frame)
    × (slot.timestamp ≡ h.header.timestamp)
    × (slot.flags ≡ h.header.flags)

-- Each slot is that of its seq, and takes its frame off those that are held.
abbrev pub Plays : {K : Type 0} → List (ℕ × Held) → List (VoicePlayout K) → Type 0
Plays frames [] = Unit {0}
Plays frames (slot ∷ slots) =
    IsSlotOf (lookup ℕ_discrete slot.seq frames) slot
    × Plays (erase ℕ_discrete slot.seq frames) slots

module _ {K : Type 0} (key : K) (now silent_at : ℤ) where
  play-IsSlotOf : (st : Stream) → IsSlotOf (lookup ℕ_discrete st.next_seq st.frames) (play key st).0
  unfolding play
  play-IsSlotOf st = elim (Option-cases (lookup ℕ_discrete st.next_seq st.frames)) [
    | inl missing ↦ rw (missing, play) (refl, refl)
    | inr (h, held) ↦ rw (held, play) (refl, refl, refl, refl)
  ]

  split :
      (slot : VoicePlayout K) (o : Option (List (VoicePlayout K) × Stream))
      (slots : List (VoicePlayout K)) (st : Stream)
      → cons_slot slot o ≡ some (slots, st)
      → (later : List (VoicePlayout K)) × (o ≡ some (later, st)) × (slot ∷ later ≡ slots)
  split slot none slots st e = absurd (cc e)
  split slot (some (later, st')) slots st e =
      let e' : some (slot ∷ later, st') ≡ some (slots, st) = e in (later, cc, cc)

  -- What the loop plays.
  pub pull_loop_slots :
      (fuel : ℕ) (st : Stream) (s : ℕ) (slots : List (VoicePlayout K)) (st' : Stream)
      → st.next_seq ≡ s % 2 ^ 16
      → pull_loop fuel key now silent_at st ≡ some (slots, st')
      → IsInOrder s slots × Plays st.frames slots
  unfolding pull_loop play
  pull_loop_slots zero st s slots st' h e = absurd (cc e)
  pull_loop_slots (suc fuel) st s slots st' h e = elim (Bool-cases (is_due now silent_at st)) [
    | inr over ↦
        let none_left : [] ≡ slots = cc (sym (loop_stops key now silent_at fuel st over) ∙ e) in
        subst (λ (l : List (VoicePlayout K)). IsInOrder s l × Plays st.frames l) none_left (tt, tt)
    | inl due ↦
        let (later, run, front) =
          split (play key st).0 _ slots st' (sym (loop_plays key now silent_at fuel st due) ∙ e) in
        let ih = pull_loop_slots fuel (play key st).1 (s + 1) later st' (omega (arith, h)) run in
        subst (λ (l : List (VoicePlayout K)). IsInOrder s l × Plays st.frames l) front
          ((h, ih.0), (play-IsSlotOf st, ih.1))
  ]

  -- The loop keeps the frame duration, and seqs of 16 bits.
  pub pull_loop-keeps :
      (fuel : ℕ) (st : Stream) (slots : List (VoicePlayout K)) (st' : Stream)
      → (1 ≤ st.frame_ms) × (st.next_seq < 2 ^ 16)
      → pull_loop fuel key now silent_at st ≡ some (slots, st')
      → (1 ≤ st'.frame_ms) × (st'.next_seq < 2 ^ 16)
  unfolding pull_loop play
  pull_loop-keeps zero st slots st' h e = absurd (cc e)
  pull_loop-keeps (suc fuel) st slots st' h e = elim (Bool-cases (is_due now silent_at st)) [
    | inr over ↦
        let same : st ≡ st' = cc (sym (loop_stops key now silent_at fuel st over) ∙ e) in
        subst (λ (s : Stream). (1 ≤ s.frame_ms) × (s.next_seq < 2 ^ 16)) same h
    | inl due ↦
        let (later, run, front) =
          split (play key st).0 _ slots st' (sym (loop_plays key now silent_at fuel st due) ∙ e) in
        pull_loop-keeps fuel (play key st).1 later st' (h.0, omega arith) run
  ]
