-- ===== src/Sched/Cyclic/Frames.antt =====
-- How a thread claims its frames of the cyclic schedule.
use workhorse_rt.Common.{
  ℕ, zero, suc, ◌+◌, ◌-◌, ◌<◌, ◌≡◌, refl, sym, ◌∙◌, true, false, ◌&&◌, Option, none, some, arith,
  ltb, leb, ◌==◌, if◌then◌else◌, update, Bool-cases, inl, inr,
}
use workhorse_rt.Bitmap.{Bitmap, test_bit, ffs}
use workhorse_rt.Bitmap.Scan.{IsLowest, ffs-IsLowest}
use workhorse_rt.Sched.Cyclic.{Frames, claim_frames}

-- The frames from `low` on whose bit is set belong to `t`, and the others to whom they did.
abbrev pub owner : ℕ → Bitmap → ℕ → ℕ → Frames → Frames
owner n bmp t low frames i = if leb low i && (ltb i n && test_bit bmp i) then some t else frames i

owner-none :
    (n : ℕ) (bmp : Bitmap) (t low : ℕ) (frames : Frames) (i : ℕ)
    → IsLowest bmp n low none
    → owner n bmp t low frames i ≡ frames i
owner-none n bmp t low frames i h = elim (Bool-cases (leb low i)) [
  | inr under ↦ rw under refl
  | inl from ↦ elim (Bool-cases (ltb i n)) [
    | inr above ↦ ground arith
    | inl below ↦
        let clear : test_bit bmp i ≡ false = h i (ground arith) (ground arith) in
        rw (from, below, clear) refl
  ]
]

owner-some :
    (n : ℕ) (bmp : Bitmap) (t low bit : ℕ) (frames : Frames) (i : ℕ)
    → IsLowest bmp n low (some bit)
    → owner n bmp t (bit + 1) (update frames bit (some t)) i ≡ owner n bmp t low frames i
owner-some n bmp t low bit frames i h = elim (Bool-cases (bit == i)) [
  | inl here ↦
      let e : i ≡ bit = ground arith in
      let set : test_bit bmp i ≡ true = rw e h.2 in ground (arith, h.0, h.1, set)
  | inr other ↦ elim (Bool-cases (leb low i)) [
    | inr under ↦ ground (arith, h.0)
    | inl from ↦ elim (Bool-cases (ltb i bit)) [
      | inl below ↦
          let clear : test_bit bmp i ≡ false = h.3 i (ground arith) (ground arith) in
          ground (arith, clear, h.1)
      | inr above ↦ ground arith
    ]
  ]
]

-- The loop ends, with the frames by owner.
abbrev pub Claimed : ℕ → Bitmap → ℕ → ℕ → Frames → Option Frames → Type 0
Claimed n bmp t low frames r =
    (after : Frames) × (r ≡ some after) × ((i : ℕ) → after i ≡ owner n bmp t low frames i)

claim_round :
    (n : ℕ) (bmp : Bitmap) (t fuel low : ℕ) (frames : Frames) (r : Option ℕ)
    → ffs bmp n low ≡ r
    → IsLowest bmp n low r
    → ((bit : ℕ)
        → r ≡ some bit
        → Claimed n bmp t
            (bit + 1)
            (update frames bit (some t))
            (claim_frames n bmp t fuel (bit + 1) (update frames bit (some t))))
    → Claimed n bmp t low frames (claim_frames n bmp t (suc fuel) low frames)
unfolding claim_frames
claim_round n bmp t fuel low frames none e h rest =
    (frames, rw (e, claim_frames) refl, λ i. sym (owner-none n bmp t low frames i h))
claim_round n bmp t fuel low frames (some bit) e h rest =
    let (after, run, same) = rest bit refl in
    (after, rw (e, claim_frames) run, λ i. same i ∙ owner-some n bmp t low bit frames i h)

pub shorter :
    (n : ℕ) (bmp : Bitmap) (fuel low bit : ℕ) (r : Option ℕ)
    → IsLowest bmp n low r
    → r ≡ some bit
    → n - low < suc fuel
    → n - (bit + 1) < fuel
shorter n bmp fuel low bit none h e less = cc
shorter n bmp fuel low bit (some i) h e less =
    let same : i ≡ bit = cc in let from = h.0 in let below = h.1 in omega arith

pub claim_frames-Claimed :
    (n : ℕ) (bmp : Bitmap) (t fuel low : ℕ) (frames : Frames)
    → n - low < fuel
    → Claimed n bmp t low frames (claim_frames n bmp t fuel low frames)
claim_frames-Claimed n bmp t zero low frames h = absurd (omega arith)
claim_frames-Claimed n bmp t (suc fuel) low frames h =
    claim_round n bmp t fuel low frames (ffs bmp n low) refl (ffs-IsLowest bmp n low) (λ bit e.
      claim_frames-Claimed n bmp t fuel (bit + 1) (update frames bit (some t))
        (shorter n bmp fuel low bit (ffs bmp n low) (ffs-IsLowest bmp n low) e h))
