-- ===== src/Platform/Collector/Rates.antt =====
-- The rates that a collection stores.
use monitc.Prelude.{
  ℕ, ◌+◌, ◌-◌, ◌≤◌, max, Bool, true, false, ◌||◌, ◌&&◌, not, Option, none, some, List, [], ◌∷◌, ◌≡◌,
  ◌⊎◌, refl, arith, if◌then◌else◌, ◌==◌, ltb, leb, All, Bool-cases, inl, inr, all,
}
use monitc.Platform.Collector.{
  Rate, no_rate, rate, elapsed, SampleRow, same_pod, newer, previous, Totals, Snapshot, sample_with,
  pod_samples, samples_of,
}

abbrev pub belongs : ℕ → Option ℕ → SampleRow → Bool
belongs server pod s = s.server_id == server && same_pod s.pod pod

-- The sample is the newest of the server and the pod, or there is none.
abbrev pub IsNewest : ℕ → Option ℕ → List SampleRow → Option SampleRow → Type 0
IsNewest server pod samples none = all (λ s. not (belongs server pod s)) samples ≡ true
IsNewest server pod samples (some p) =
    (belongs server pod p ≡ true)
    × (all (λ s. not (belongs server pod s) || leb s.sampled_at p.sampled_at) samples ≡ true)

all_later :
    (server : ℕ) (pod : Option ℕ) (low high : ℕ) (samples : List SampleRow)
    → low ≤ high
    → all (λ s. not (belongs server pod s) || leb s.sampled_at low) samples ≡ true
    → all (λ s. not (belongs server pod s) || leb s.sampled_at high) samples ≡ true
all_later server pod low high [] h a = refl
all_later server pod low high (x ∷ samples) h a =
    ground (arith, all_later server pod low high samples h)

none_later :
    (server : ℕ) (pod : Option ℕ) (high : ℕ) (samples : List SampleRow)
    → all (λ s. not (belongs server pod s)) samples ≡ true
    → all (λ s. not (belongs server pod s) || leb s.sampled_at high) samples ≡ true
none_later server pod high [] a = refl
none_later server pod high (x ∷ samples) a = ground (arith, none_later server pod high samples)

IsNewest-pick :
    (server : ℕ) (pod : Option ℕ) (s p : SampleRow) (samples : List SampleRow) (c : Bool)
    → ltb s.sampled_at p.sampled_at ≡ c
    → belongs server pod s ≡ true
    → IsNewest server pod samples (some p)
    → IsNewest server pod (s ∷ samples) (some (if c then p else s))
IsNewest-pick server pod s p samples true f e (b, h) = (b, ground arith)
IsNewest-pick server pod s p samples false f e (b, h) =
    (e, ground (arith, all_later server pod p.sampled_at s.sampled_at samples))

IsNewest-cons :
    (server : ℕ) (pod : Option ℕ) (s : SampleRow) (samples : List SampleRow)
    (best : Option SampleRow)
    → IsNewest server pod samples best
    → IsNewest server pod (s ∷ samples) (if belongs server pod s then some (newer s best) else best)
IsNewest-cons server pod s samples none h = elim (Bool-cases (belongs server pod s)) [
  | inl e ↦ rw e (e, ground (arith, none_later server pod s.sampled_at samples h))
  | inr e ↦ rw e (ground arith)
]
IsNewest-cons server pod s samples (some p) (b, h) = elim (Bool-cases (belongs server pod s)) [
  | inl e ↦
      rw e (IsNewest-pick server pod s p samples (ltb s.sampled_at p.sampled_at) refl e (b, h))
  | inr e ↦ rw e (b, ground arith)
]

previous-IsNewest :
    (server : ℕ) (pod : Option ℕ) (samples : List SampleRow)
    → IsNewest server pod samples (previous server pod samples)
previous-IsNewest server pod [] = refl
previous-IsNewest server pod (s ∷ samples) =
    IsNewest-cons server pod s samples (previous server pod samples)
      (previous-IsNewest server pod samples)

-- A rate over the time since the earlier sample, but at least a second; none if a counter went back.
abbrev pub IsRate : Rate → ℕ → ℕ → ℕ → Type 0
IsRate r total before ms =
    (r.bytes + before ≡ max total before)
    × ((r.bytes ≡ 0) ⊎ (r.in_ms ≡ max 1000 ms))
    × (1000 ≤ r.in_ms)

abbrev pub IsMeasuredSince : Option SampleRow → SampleRow → Type 0
IsMeasuredSince none x = (x.rx_rate ≡ no_rate) × (x.tx_rate ≡ no_rate)
IsMeasuredSince (some p) x =
    IsRate x.rx_rate x.rx_total p.rx_total (x.sampled_at - p.sampled_at)
    × IsRate x.tx_rate x.tx_total p.tx_total (x.sampled_at - p.sampled_at)

abbrev pub IsMeasured : List SampleRow → SampleRow → Type 0
IsMeasured samples x =
    (p : Option SampleRow) × (IsNewest x.server_id x.pod samples p × IsMeasuredSince p x)

rate-IsRate :
    (total before at since : ℕ)
    → IsRate (rate total before (elapsed at since)) total before (at - since)
unfolding rate
rate-IsRate total before at since = ground arith

sample_with-IsMeasured :
    (samples : List SampleRow) (server : ℕ) (pod : Option ℕ) (at : ℕ) (t : Totals)
    (p : Option SampleRow)
    → IsNewest server pod samples p
    → IsMeasured samples (sample_with server pod at t p)
sample_with-IsMeasured samples server pod at t none h = (none, (h, (refl, refl)))
sample_with-IsMeasured samples server pod at t (some p) h =
    let ms = at - p.sampled_at in
    let rx : IsRate (rate t.rx_total p.rx_total (elapsed at p.sampled_at)) t.rx_total p.rx_total
        ms =
      rate-IsRate t.rx_total p.rx_total at p.sampled_at in
    let tx : IsRate (rate t.tx_total p.tx_total (elapsed at p.sampled_at)) t.tx_total p.tx_total
        ms =
      rate-IsRate t.tx_total p.tx_total at p.sampled_at in
    (some p, (h, (rx, tx)))

pod_samples-IsMeasured :
    (samples : List SampleRow) (server at : ℕ) (pods : List (ℕ × Totals))
    → All (IsMeasured samples) (pod_samples samples server at pods)
pod_samples-IsMeasured samples server at [] = tt
pod_samples-IsMeasured samples server at ((pod, t) ∷ pods) = (
  sample_with-IsMeasured samples server (some pod) at t (previous server (some pod) samples)
      (previous-IsNewest server (some pod) samples),
  pod_samples-IsMeasured samples server at pods,
)

-- Each sample that a collection stores is measured against the newest earlier sample of its server or
-- pod: the bytes are the growth of the counter, 0 if it went back, in the time since then, but at least
-- a second. Without an earlier sample the rates are 0.
pub samples_of-IsMeasured :
    (samples : List SampleRow) (server at : ℕ) (snapshot : Snapshot)
    → All (IsMeasured samples) (samples_of samples server at snapshot)
samples_of-IsMeasured samples server at snapshot = (
  sample_with-IsMeasured samples server none at snapshot.system (previous server none samples)
      (previous-IsNewest server none samples),
  pod_samples-IsMeasured samples server at snapshot.pods,
)
