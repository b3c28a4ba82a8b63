-- ===== src/Word/Encoding.antt =====
-- A word gives back what it was made of.
use policy_gate.Prelude.{
  ℕ, ◌+◌, ◌-◌, ◌*◌, ◌/◌, ◌%◌, ◌^◌, ◌≤◌, ◌<◌, ◌≡◌, refl, sym, ap, ◌∙◌, arith, bit_or_tag,
  bit_and_tag, bit_and_clear, bit_and_no_tag, bit_or, bit_and, ◌==◌, if◌then◌else◌,
}
use policy_gate.Word.{
  EntryState, as_u64, no_expiry, word, decode_entry_state, deadline_of, stale_word,
}

as_u64-lt : (s : EntryState) → as_u64 s < 4
as_u64-lt EntryState.pending = omega arith
as_u64-lt _ = omega arith

word_sum : (s : EntryState) (d : ℕ) → d ≤ no_expiry → word s d ≡ d * 4 + as_u64 s
unfolding word
word_sum s d h =
    let fits : d * 4 % 2 ^ 64 ≡ d * 4 = omega arith in
    rw fits (bit_or_tag d (as_u64 s) (as_u64-lt s))

stale_word_sum : (w : ℕ) → w < 2 ^ 64 → stale_word w ≡ w / 4 * 4 + 3
unfolding stale_word
stale_word_sum w h = rw (bit_and_clear w h) (bit_or_tag (w / 4) 3 (omega arith))

-- The state that a tag stands for.
state_of_tag : ℕ → EntryState
state_of_tag t =
    if t == 0
    then EntryState.pending
    else if t == 1
    then EntryState.allowed
    else if t == 2
    then EntryState.denied
    else EntryState.stale

decode_tag : (w : ℕ) → decode_entry_state w ≡ state_of_tag (w % 4)
unfolding decode_entry_state state_of_tag
decode_tag w = ap state_of_tag (bit_and_tag w)

decode_sum : (s : EntryState) (d : ℕ) → decode_entry_state (d * 4 + as_u64 s) ≡ s
unfolding state_of_tag
decode_sum s d =
    let tag : (d * 4 + as_u64 s) % 4 ≡ as_u64 s = omega (arith, as_u64-lt s) in
    decode_tag (d * 4 + as_u64 s) ∙ rw tag (back s)
  where
    back : (s : EntryState) → state_of_tag (as_u64 s) ≡ s
    back EntryState.pending = refl
    back EntryState.allowed = refl
    back EntryState.denied = refl
    back EntryState.stale = refl

-- A word made of a state and a deadline that fits in 62 bits decodes to both, and is a 64-bit
-- word.
pub word_roundtrip :
    (s : EntryState) (d : ℕ)
    → d ≤ no_expiry
    → (decode_entry_state (word s d) ≡ s) × (deadline_of (word s d) ≡ d) × (word s d < 2 ^ 64)
word_roundtrip s d h = (
  rw (word_sum s d h) (decode_sum s d),
  omega (arith, word_sum s d h, as_u64-lt s),
  omega (arith, word_sum s d h, as_u64-lt s),
)

-- Marking a 64-bit word stale keeps its deadline, gives the state `stale`, and changes nothing
-- the second time.
pub stale_word_lem :
    (w : ℕ)
    → w < 2 ^ 64
    → (decode_entry_state (stale_word w) ≡ EntryState.stale)
      × (deadline_of (stale_word w) ≡ deadline_of w)
      × (stale_word (stale_word w) ≡ stale_word w)
      × (stale_word w < 2 ^ 64)
stale_word_lem w h = (
  rw (stale_word_sum w h) (decode_sum EntryState.stale (w / 4)),
  omega (arith, stale_word_sum w h),
  omega (arith, stale_word_sum w h, stale_word_sum (stale_word w)),
  omega (arith, stale_word_sum w h),
)

-- A stale word is its own stale word.
pub stale_word_of_stale :
    (w : ℕ) → w < 2 ^ 64 → decode_entry_state w ≡ EntryState.stale → stale_word w ≡ w
unfolding state_of_tag
stale_word_of_stale w h e =
    let tag : state_of_tag (w % 4) ≡ EntryState.stale = sym (decode_tag w) ∙ e in
    let three : w % 4 ≡ 3 = ground arith in omega (arith, stale_word_sum w h)

-- Marking any word stale makes it read as stale.
pub decode-stale_word : (w : ℕ) → decode_entry_state (stale_word w) ≡ EntryState.stale
unfolding stale_word
decode-stale_word w =
    let kept = bit_and (w / 4) (2 ^ 62 - 1) in
    let cleared : bit_or (bit_and w (2 ^ 64 - 4)) 3 ≡ kept * 4 + 3 =
      rw (bit_and_no_tag w) (bit_or_tag kept 3 (omega arith)) in
    rw cleared (decode_sum EntryState.stale kept)
