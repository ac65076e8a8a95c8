-- ===== src/Channels/Retry/Ends.antt =====
-- How the attempts of pkg/channels/manager.go end.
use nook_claw.Prelude.{
  ℕ, zero, suc, ◌+◌, ◌*◌, ◌^◌, ◌≤◌, ◌<◌, ◌≡◌, ◌⊎◌, inl, inr, refl, max, true, false, ◌&&◌, Option,
  none, some, List, [], ◌∷◌, All, length, ltb, arith, ◌==◌, subst, Bool-cases,
}
use nook_claw.Prelude.Text.{Text}
use nook_claw.Channels.Split.Bound.{split_message-bound}
use nook_claw.Channels.Retry.{
  SendError, is_permanent, max_retries, Platform, SendResult, sent, gave_up, cancelled,
  last_attempt, on_answer, attempts, worker_messages,
}

abbrev pub total : List ℕ → ℕ
total [] = 0
total (d ∷ ds) = d + total ds

-- The attempt failed with an error that is retried, and the wait after it was not interrupted.
abbrev pub IsRetried : Platform → ℕ → Type 0
IsRetried p i =
    (error : SendError) × (p.send i ≡ some error)
    × (is_permanent error ≡ false)
    × (p.is_cancelled i ≡ false)

-- What the result says of the attempts from the first on.
abbrev pub Describes : Platform → ℕ → ℕ → SendResult → Type 0
Describes p first last (sent n) =
    (n ≤ last) × (p.send n ≡ none) × ((i : ℕ) → first ≤ i → i < n → IsRetried p i)
Describes p first last (gave_up error n) =
    (n ≤ last)
    × (p.send n ≡ some error)
    × ((is_permanent error ≡ true) ⊎ (n ≡ last))
    × ((i : ℕ) → first ≤ i → i < n → IsRetried p i)
Describes p first last cancelled =
    (n : ℕ) × (n < last) × (p.is_cancelled n ≡ true) × ((i : ℕ) → first ≤ i → i < n → IsRetried p i)

IsRetried-from :
    (p : Platform) (first n : ℕ)
    → IsRetried p first
    → ((i : ℕ) → suc first ≤ i → i < n → IsRetried p i)
    → (i : ℕ) → first ≤ i
    → i < n
    → IsRetried p i
IsRetried-from p first n h k i low high = elim (Bool-cases (first == i)) [
  | inl e ↦ let same : first ≡ i = ground (arith, e) in subst (IsRetried p) same h
  | inr e ↦ k i (ground (arith, e)) high
]

extend :
    (p : Platform) (first last : ℕ) (r : SendResult)
    → IsRetried p first
    → Describes p (suc first) last r
    → Describes p first last r
extend p first last (sent n) h (low, done, before) = (low, done, IsRetried-from p first n h before)
extend p first last (gave_up e n) h (low, failed, reason, before) =
    (low, failed, reason, IsRetried-from p first n h before)
extend p first last cancelled h (n, low, ended, before) =
    (n, low, ended, IsRetried-from p first n h before)

none_before : (p : Platform) (n i : ℕ) → n ≤ i → i < n → IsRetried p i
none_before p n i low high = absurd (omega arith)

last_attempt-Describes :
    (p : Platform) (attempt : ℕ) (o : Option SendError)
    → p.send attempt ≡ o
    → Describes p attempt attempt (last_attempt attempt o).0
last_attempt-Describes p attempt none e = (omega arith, e, none_before p attempt)
last_attempt-Describes p attempt (some error) e = (omega arith, e, inr refl, none_before p attempt)

on_answer-Describes :
    (p : Platform) (attempt last : ℕ) (rest : SendResult × List ℕ) (o : Option SendError)
    → attempt < last
    → p.send attempt ≡ o
    → Describes p (suc attempt) last rest.0
    → Describes p attempt last (on_answer p attempt rest o).0
on_answer-Describes p attempt last rest none h e d = (omega (arith, h), e, none_before p attempt)
on_answer-Describes p attempt last rest (some error) h e d =
    elim (Bool-cases (is_permanent error)) [
      | inl k ↦ rw k (omega (arith, h), e, inl k, none_before p attempt)
      | inr k ↦ rw k (elim (Bool-cases (p.is_cancelled attempt)) [
        | inl c ↦ rw c (attempt, h, c, none_before p attempt)
        | inr c ↦ rw c (extend p attempt last rest.0 (error, e, k, c) d)
      ])
    ]

attempts-Describes :
    (p : Platform) (attempt left last : ℕ)
    → attempt + left ≡ last
    → Describes p attempt last (attempts p attempt left).0
unfolding attempts
attempts-Describes p attempt zero last h =
    subst (λ n. Describes p attempt n (attempts p attempt zero).0) {x = attempt} (omega (arith, h))
      (last_attempt-Describes p attempt (p.send attempt) refl)
attempts-Describes p attempt (suc left) last h =
    on_answer-Describes p attempt last (attempts p (suc attempt) left) (p.send attempt)
      (omega (arith, h)) refl (attempts-Describes p (suc attempt) left last (omega (arith, h)))

on_answer-total :
    (p : Platform) (attempt : ℕ) (rest : SendResult × List ℕ) (o : Option SendError)
    → total (on_answer p attempt rest o).1 ≤ max 1000 (500 * 2 ^ attempt) + total rest.1
on_answer-total p attempt rest o = ground arith

last_attempt-total : (attempt : ℕ) (o : Option SendError) → total (last_attempt attempt o).1 ≡ 0
last_attempt-total attempt none = refl
last_attempt-total attempt (some error) = refl

-- A message is tried four times at most, and waits are four seconds at most in all. It is sent at the
-- last attempt, or the attempts end with an error that is permanent or that of the fourth attempt,
-- or in the wait after one of the first three, where the context ended; and every attempt before
-- that failed with an error that is not permanent, and its wait was not interrupted.
pub attempts-Ends :
    (p : Platform)
    → let (result, delays) = attempts p 0 max_retries in
      Describes p 0 3 result × (total delays ≤ 4000)
unfolding attempts
attempts-Ends p = (
  attempts-Describes p 0 3 3 refl,
  omega (
    arith,
    on_answer-total p 0 (attempts p 1 2) (p.send 0),
    on_answer-total p 1 (attempts p 2 1) (p.send 1),
    on_answer-total p 2 (attempts p 3 0) (p.send 2),
    last_attempt-total 3 (p.send 3),
  ),
)

-- On a channel with a limit, the worker hands the platform no message that is longer, whatever number
-- of rounds SplitMessage's loop has made, and a message within the limit as it is, with no round.
pub worker_messages-bound :
    (rounds max_len : ℕ) (content : Text)
    → 0 < max_len
    → All (λ m. length m ≤ max_len) (worker_messages rounds max_len content).0
      × (length content ≤ max_len → worker_messages rounds max_len content ≡ (content ∷ [], []))
unfolding worker_messages
worker_messages-bound rounds max_len content pos = (
  elim (Bool-cases (ltb 0 max_len && ltb max_len (length content))) [
    | inl e ↦ rw e (split_message-bound rounds max_len content pos)
    | inr e ↦ rw e (ground (arith, e, pos), tt)
  ],
  λ h. ground (arith, h),
)
