-- ===== src/Startup/Identity.antt =====
-- The identities that the engines draw at startup.
use low_latency_event_engine.Base.{
  ℕ, ◌≡◌, ◌≢◌, ◌⊎◌, inl, inr, refl, arith, List, [], ◌∷◌, ◌++◌, Option, none, some,
}
use low_latency_event_engine.Transport.{Errno}
use low_latency_event_engine.Startup.{Draw, draw_failed, drawn, draw_id}

-- A draw that is made again: it was interrupted, or has given zero.
abbrev pub IsRetry : Errno → ℕ → Draw → Type 0
IsRetry errno width (draw_failed e) = e ≡ errno.eintr
IsRetry errno width (drawn count id) = (count ≡ width) × (id ≡ 0)

-- A draw that ends the loop, with the number that it gives, if any.
abbrev pub IsLast : Errno → ℕ → Draw → Option ℕ → Type 0
IsLast errno width (draw_failed e) result = (e ≢ errno.eintr) × (result ≡ none)
IsLast errno width (drawn count id) result =
    ((count ≢ width) × (result ≡ none)) ⊎ ((count ≡ width) × (id ≢ 0) × (result ≡ some id))

abbrev pub AreRetries : Errno → ℕ → List Draw → Type 0
AreRetries errno width [] = Unit {0}
AreRetries errno width (d ∷ ds) = IsRetry errno width d × AreRetries errno width ds

draw_id-retry :
    (errno : Errno) (width : ℕ) (d : Draw) (ds : List Draw)
    → IsRetry errno width d
    → draw_id errno width (d ∷ ds) ≡ draw_id errno width ds
unfolding draw_id
draw_id-retry errno width (draw_failed e) ds retry = ground (arith, retry)
draw_id-retry errno width (drawn count id) ds (full, zero_id) = ground (arith, full, zero_id)

draw_id-last :
    (errno : Errno) (width : ℕ) (d : Draw) (result : Option ℕ) (ds : List Draw)
    → IsLast errno width d result
    → draw_id errno width (d ∷ ds) ≡ some result
unfolding draw_id
draw_id-last errno width (draw_failed e) result ds (other, given) = ground (arith, other, given)
draw_id-last errno width (drawn count id) result ds (inl (short, given)) =
    ground (arith, short, given)
draw_id-last errno width (drawn count id) result ds (inr (full, nonzero, given)) =
    ground (arith, full, nonzero, given)

-- The loop over `getrandom` does not return as long as the calls are interrupted or give zero, and it
-- returns with the first call that is neither: with the number that the call gives if the call is
-- complete, and with an error if it is short or fails for another reason.
pub draw_id-returns :
    (errno : Errno) (width : ℕ) (before : List Draw) (d : Draw) (result : Option ℕ) (ds : List Draw)
    → AreRetries errno width before
    → IsLast errno width d result
    → (draw_id errno width before ≡ none) × (draw_id errno width (before ++ d ∷ ds) ≡ some result)
draw_id-returns errno width [] d result ds _ last =
    (unfold draw_id in refl, draw_id-last errno width d result ds last)
draw_id-returns errno width (b ∷ bs) d result ds (retry, retries) last =
    let (waits, returns) = draw_id-returns errno width bs d result ds retries last in
    rw (draw_id-retry errno width b bs retry, draw_id-retry errno width b (bs ++ d ∷ ds) retry)
      (waits, returns)

-- An identity is never zero.
pub draw_id-nonzero :
    (errno : Errno) (width : ℕ) (draws : List Draw) (id : ℕ)
    → draw_id errno width draws ≡ some (some id)
    → id ≢ 0
unfolding draw_id
draw_id-nonzero errno width [] id e = absurd (grind arith)
draw_id-nonzero errno width (draw_failed f ∷ draws) id e =
    let rest = draw_id-nonzero errno width draws id in grind arith
draw_id-nonzero errno width (drawn count n ∷ draws) id e =
    let rest = draw_id-nonzero errno width draws id in grind arith
