-- ===== src/Pingpong/Worker/Room.antt =====
-- The array of deltas of a thread of pingpong.c: how many it receives, and for how many there is
-- room.
use osjitter.Prelude.{
  ℕ, ◌+◌, ◌/◌, ◌%◌, ◌≤◌, ◌<◌, ◌≡◌, ◌≢◌, refl, none, some, arith, ltb, ltb→lt, ◌⊎◌, inl, inr,
  Bool-cases,
}
use osjitter.Pingpong.Worker.{Locals, start, next, taken, received}

-- Of the first i iterations a thread has received in those whose parity is not its own.
abbrev pub IsCounted : ℕ → Locals → Type 0
IsCounted init l = l.j ≡ (l.i + init) / 2

pub start-IsCounted : (n init : ℕ) → init ≤ 1 → IsCounted init (start n)
start-IsCounted n init h = omega arith

pub next-IsCounted_sent :
    (init : ℕ) (l : Locals) → init ≤ 1 → l.i % 2 ≡ init → IsCounted init l → IsCounted init (next l)
next-IsCounted_sent init l h turn c = omega arith

pub next-taken-IsCounted :
    (init now v : ℕ) (l : Locals)
    → init ≤ 1
    → l.i % 2 ≢ init
    → IsCounted init l
    → IsCounted init (next (taken now v l))
next-taken-IsCounted init now v l h turn c = omega arith

pub received-cases :
    (n now v : ℕ) (l : Locals)
    → ((l.j < n / 2) × (received n now v l ≡ some (taken now v l)))
      ⊎ ((n / 2 ≤ l.j) × (received n now v l ≡ none))
unfolding received
received-cases n now v l = elim (Bool-cases (ltb l.j (n / 2))) [
  | inl room ↦ inl (ltb→lt _ _ room, rw room refl)
  | inr full ↦ inr ((ground (arith, full)), rw full refl)
]

-- A thread that receives in iteration i has room for the delta, unless i is the last iteration, i is
-- even and the thread is the one that receives in even iterations.
pub received-room :
    (n now v init : ℕ) (l : Locals)
    → init ≤ 1
    → l.i < n
    → l.i % 2 ≢ init
    → IsCounted init l
    → (received n now v l ≡ some (taken now v l))
      ⊎ ((received n now v l ≡ none) × (l.i + 1 ≡ n) × (n % 2 ≡ 1) × (init ≡ 1))
received-room n now v init l h lt turn c = elim (received-cases n now v l) [
  | inl (room, e) ↦ inl e
  | inr (full, e) ↦ inr (e, omega arith, omega arith, omega arith)
]

pub received-overflows :
    (n now v : ℕ) (l : Locals) → l.i + 1 ≡ n → n % 2 ≡ 1 → IsCounted 1 l → received n now v l ≡ none
received-overflows n now v l last odd c = elim (received-cases n now v l) [
  | inl (room, e) ↦ absurd (omega arith)
  | inr (full, e) ↦ e
]
