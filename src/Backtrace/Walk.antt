-- ===== src/Backtrace/Walk.antt =====
-- The walk over the frames of the stack: `CustomBackTrace` of src/utils.hpp, on the registers of the
-- context and the memory of the program, by words of 8 bytes.
use hawk_set.Prelude.{
  ℕ, zero, suc, ◌+◌, ◌-◌, ◌/◌, ◌%◌, ◌^◌, ◌≤◌, ◌<◌, ◌*◌, ◌≡◌, ◌≢◌, ◌⊎◌, ◌↔◌, refl, ap, true, false,
  ==_iff, Bool, some, List, [], ◌∷◌, ltb, ◌==◌, if◌then◌else◌, length, get_elem?, Bool-cases, inl,
  inr, arith,
}

-- The test on the distance, which is counted in words. A distance of 2 ^ 63 bytes or more is too far
-- as a signed number of words, too.
unfoldable pub is_far : ℕ → ℕ → Bool
is_far frame_ptr stack_ptr =
    let top : ℕ = if ltb frame_ptr stack_ptr then stack_ptr else frame_ptr in
    let bottom : ℕ = if ltb stack_ptr frame_ptr then stack_ptr else frame_ptr in
    ltb 65536 ((top - bottom) / 8)

-- The loop, with the rounds that are left: the addresses that it writes.
unfoldable pub walk : ℕ → (ℕ → ℕ) → ℕ → ℕ → List ℕ
unfolding is_far
walk zero memory frame_ptr stack_ptr = []
walk (suc rounds) memory frame_ptr stack_ptr =
    let rest = walk rounds memory (memory frame_ptr) frame_ptr in
    if frame_ptr == 0
    then []
    else if is_far frame_ptr stack_ptr
    then []
    else memory ((frame_ptr + 8) % 2 ^ 64) ∷ rest

-- `CustomBackTrace`: its result, which is cut to 32 bits, and what it has written to `addresses`.
unfoldable pub custom_back_trace : (ℕ → ℕ) → ℕ → ℕ → ℕ → ℕ → ℕ × List ℕ
unfolding walk
custom_back_trace memory ip rbp rsp depth =
    if depth == 0
    then (0, [])
    else if ip == 0
    then (0, ip ∷ [])
    else if depth == 1
    then (1, ip ∷ [])
    else (let addresses = ip ∷ walk (depth - 1) memory rbp rsp in
        (length addresses % 2 ^ 32, addresses))

-- The frames of the stack: each one's first word is the address of the next.
abbrev pub frame_at : (ℕ → ℕ) → ℕ → ℕ → ℕ
frame_at memory frame_ptr zero = frame_ptr
frame_at memory frame_ptr (suc i) = frame_at memory (memory frame_ptr) i

-- The address in a frame's second word.
abbrev pub return_address : (ℕ → ℕ) → ℕ → ℕ
return_address memory frame_ptr = memory ((frame_ptr + 8) % 2 ^ 64)

length-walk :
    (rounds : ℕ) (memory : ℕ → ℕ) (frame_ptr stack_ptr : ℕ)
    → length (walk rounds memory frame_ptr stack_ptr) ≤ rounds
unfolding walk
length-walk zero memory frame_ptr stack_ptr = omega arith
length-walk (suc rounds) memory frame_ptr stack_ptr =
    let rest = length-walk rounds memory (memory frame_ptr) frame_ptr in
    elim (Bool-cases (frame_ptr == 0)) [
      | inl e ↦ rw (e, walk) (omega arith)
      | inr e ↦ elim (Bool-cases (is_far frame_ptr stack_ptr)) [
        | inl f ↦ rw (e, f, walk) (omega arith)
        | inr f ↦ rw (e, f, walk) (omega (arith, rest))
      ]
    ]

walk_lem :
    (rounds : ℕ) (memory : ℕ → ℕ) (frame_ptr stack_ptr i a : ℕ)
    → get_elem? (walk rounds memory frame_ptr stack_ptr) i ≡ some a
    → a ≡ return_address memory (frame_at memory frame_ptr i)
unfolding walk
walk_lem zero memory frame_ptr stack_ptr i a h = cc
walk_lem (suc rounds) memory frame_ptr stack_ptr i a h =
    let rest = walk_lem rounds memory (memory frame_ptr) frame_ptr in
    elim (Bool-cases (frame_ptr == 0)) [
      | inl e ↦ let none_there = rw (e, walk) at h in cc
      | inr e ↦ elim (Bool-cases (is_far frame_ptr stack_ptr)) [
        | inl f ↦ let none_there = rw (e, f, walk) at h in cc
        | inr f ↦ go i rest (rw (e, f, walk) at h)
      ]
    ]
  where
    tail : List ℕ
    tail = walk rounds memory (memory frame_ptr) frame_ptr

    go :
        (j : ℕ)
        → ((k b : ℕ)
            → get_elem? tail k ≡ some b
            → b ≡ return_address memory (frame_at memory (memory frame_ptr) k))
        → get_elem? (return_address memory frame_ptr ∷ tail) j ≡ some a
        → a ≡ return_address memory (frame_at memory frame_ptr j)
    go zero rest k = cc
    go (suc j) rest k = rest j a k

-- The address that belongs at a position.
abbrev pub address_at : (ℕ → ℕ) → ℕ → ℕ → ℕ → ℕ
address_at memory ip rbp zero = ip
address_at memory ip rbp (suc i) = return_address memory (frame_at memory rbp i)

-- The stack pointer that belongs to a frame: the one before it.
abbrev pub below_at : (ℕ → ℕ) → ℕ → ℕ → ℕ → ℕ
below_at memory frame_ptr stack_ptr zero = stack_ptr
below_at memory frame_ptr stack_ptr (suc i) = below_at memory (memory frame_ptr) frame_ptr i

-- More than 65536 words of 8 bytes are between two addresses.
abbrev pub Apart : ℕ → ℕ → Type 0
Apart a b = (b + 8 * 65537 ≤ a) ⊎ (a + 8 * 65537 ≤ b)

is_far_iff : (a b : ℕ) → (is_far a b ≡ true) ↔ Apart a b
unfolding is_far
is_far_iff a b = (
  λ h. elim (Bool-cases (ltb a b)) [
    | inl e ↦ inr (ground (arith, h, e))
    | inr e ↦ inl (ground (arith, h, e))
  ],
  λ apart. elim apart [ inl h ↦ ground (arith, h) | inr h ↦ ground (arith, h) ],
)

-- A frame that the walk passes, and one at which it stops.
abbrev pub Passes : ℕ → ℕ → Type 0
Passes frame_ptr stack_ptr = (frame_ptr ≢ 0) × ¬ Apart frame_ptr stack_ptr

abbrev pub Stops : ℕ → ℕ → Type 0
Stops frame_ptr stack_ptr = (frame_ptr ≡ 0) ⊎ Apart frame_ptr stack_ptr

-- The walk passes one frame for each address; when there is room for more, it stops at the next.
abbrev Extent : (ℕ → ℕ) → ℕ → ℕ → ℕ → ℕ → Type 0
Extent memory frame_ptr stack_ptr n rounds =
    ((i : ℕ) → i < n → Passes (frame_at memory frame_ptr i) (below_at memory frame_ptr stack_ptr i))
    × ((n ≡ rounds) ⊎ Stops (frame_at memory frame_ptr n) (below_at memory frame_ptr stack_ptr n))

further :
    (memory : ℕ → ℕ) (frame_ptr stack_ptr n rounds : ℕ)
    → (frame_ptr == 0) ≡ false
    → is_far frame_ptr stack_ptr ≡ false
    → Extent memory (memory frame_ptr) frame_ptr n rounds
    → Extent memory frame_ptr stack_ptr (suc n) (suc rounds)
further memory frame_ptr stack_ptr n rounds e f (before, last) =
    (passes, elim last [ inl h ↦ inl (ap suc h) | inr stop ↦ inr stop ])
  where
    passes :
        (i : ℕ)
        → i < suc n
        → Passes (frame_at memory frame_ptr i) (below_at memory frame_ptr stack_ptr i)
    passes zero h =
        (ground (arith, e), λ apart. let far = (is_far_iff frame_ptr stack_ptr).1 apart in cc)
    passes (suc i) h = before i (omega (arith, h))

walk-Extent :
    (rounds : ℕ) (memory : ℕ → ℕ) (frame_ptr stack_ptr : ℕ)
    → Extent memory frame_ptr stack_ptr (length (walk rounds memory frame_ptr stack_ptr)) rounds
unfolding walk
walk-Extent zero memory frame_ptr stack_ptr = ((λ i h. absurd (omega (arith, h))), inl refl)
walk-Extent (suc rounds) memory frame_ptr stack_ptr =
    let rest = walk-Extent rounds memory (memory frame_ptr) frame_ptr in
    elim (Bool-cases (frame_ptr == 0)) [
      | inl e ↦
          rw (e, walk) ((λ i h. absurd (omega (arith, h))), inr (inl ((==_iff frame_ptr 0).0 e)))
      | inr e ↦ elim (Bool-cases (is_far frame_ptr stack_ptr)) [
        | inl f ↦
            rw (e, f, walk)
              ((λ i h. absurd (omega (arith, h))), inr (inr ((is_far_iff frame_ptr stack_ptr).0 f)))
        | inr f ↦ rw (e, f, walk) (further memory frame_ptr stack_ptr _ rounds e f rest)
      ]
    ]

-- Beyond the instruction pointer there is an address for each frame up to one at which the walk
-- stops, or up to the end of the room.
abbrev pub IsFull : (ℕ → ℕ) → ℕ → ℕ → ℕ → ℕ → List ℕ → Type 0
IsFull memory ip rbp rsp depth addresses =
    ((i : ℕ)
      → i + 1 < length addresses
      → Passes (frame_at memory rbp i) (below_at memory rbp rsp i))
    × ((length addresses ≡ depth)
        ⊎ (ip ≡ 0)
        ⊎ ((n : ℕ) × (length addresses ≡ suc n)
            × Stops (frame_at memory rbp n) (below_at memory rbp rsp n)))

-- The result and the addresses fit in the room, agree, and are those of the frames.
abbrev pub IsWalk : (ℕ → ℕ) → ℕ → ℕ → ℕ → ℕ → ℕ × List ℕ → Type 0
IsWalk memory ip rbp rsp depth (result, addresses) =
    (length addresses ≤ depth)
    × (result ≤ length addresses)
    × (ip ≢ 0 → result ≡ length addresses)
    × ((i a : ℕ) → get_elem? addresses i ≡ some a → a ≡ address_at memory ip rbp i)
    × IsFull memory ip rbp rsp depth addresses

-- With room for less than 2 ^ 32 addresses, the walk ends, whatever the memory holds, cycles of frames
-- included. It never writes beyond its room; its result is at most the number of the addresses that
-- it has written, and that number when the instruction pointer is not null. The first address is the
-- instruction pointer, and the one at position i + 1 the return address of the frame that is i steps
-- from `rbp`. Each of those frames is not null and at most 65536 words from the one before it, or
-- from `rsp`; and if the instruction pointer is not null and there is room left, the next frame is
-- null or farther away.
pub custom_back_trace-IsWalk :
    (memory : ℕ → ℕ) (ip rbp rsp depth : ℕ)
    → depth < 2 ^ 32
    → IsWalk memory ip rbp rsp depth (custom_back_trace memory ip rbp rsp depth)
unfolding custom_back_trace
custom_back_trace-IsWalk memory ip rbp rsp depth small = elim (Bool-cases (depth == 0)) [
  | inl e ↦
      rw (e, custom_back_trace)
        (
          omega arith,
          omega arith,
          (λ h. refl),
          (λ i a h. cc),
          ((λ i h. absurd (omega (arith, h))), inl (ground (arith, e))),
        )
  | inr e ↦ elim (Bool-cases (ip == 0)) [
    | inl f ↦
        rw (e, f, custom_back_trace)
          (
            ground arith,
            omega arith,
            (λ h. absurd (h (ground arith))),
            single,
            ((λ i h. absurd (omega (arith, h))), inr (inl (ground (arith, f)))),
          )
    | inr f ↦ elim (Bool-cases (depth == 1)) [
      | inl g ↦
          rw (e, f, g, custom_back_trace)
            (
              ground arith,
              omega arith,
              (λ h. refl),
              single,
              ((λ i h. absurd (omega (arith, h))), inl (ground (arith, g))),
            )
      | inr g ↦
          let fits = length-walk (depth - 1) memory rbp rsp in
          let room : 1 < depth = ground arith in
          rw (e, f, g, custom_back_trace)
            (
              omega (arith, fits),
              omega (arith, fits),
              (λ h. omega (arith, fits)),
              several,
              ((λ i h. (walk-Extent (depth - 1) memory rbp rsp).0 i (omega (arith, h))), full room),
            )
    ]
  ]
]
  where
    single : (i a : ℕ) → get_elem? (ip ∷ []) i ≡ some a → a ≡ address_at memory ip rbp i
    single zero a h = cc
    single (suc i) a h = cc

    several :
        (i a : ℕ)
        → get_elem? (ip ∷ walk (depth - 1) memory rbp rsp) i ≡ some a
        → a ≡ address_at memory ip rbp i
    several zero a h = cc
    several (suc i) a h = walk_lem (depth - 1) memory rbp rsp i a h

    full :
        1 < depth
        → (length (ip ∷ walk (depth - 1) memory rbp rsp) ≡ depth)
          ⊎ (ip ≡ 0)
          ⊎ ((n : ℕ) × (length (ip ∷ walk (depth - 1) memory rbp rsp) ≡ suc n)
              × Stops (frame_at memory rbp n) (below_at memory rbp rsp n))
    full room = elim (walk-Extent (depth - 1) memory rbp rsp).1 [
      | inl e ↦ inl (omega (arith, e, room))
      | inr stop ↦ inr (inr (_, refl, stop))
    ]
