-- ===== src/Desktop/Monitors/Network.antt =====
-- The traffic of network interfaces, `parseNetwork` of src/main/monitors/system-monitor.ts, from the
-- numbers of the lines that match its pattern.
use monitc.Prelude.{
  str_eq_iff, ◌∙◌, ap, count_if, Bool-cases, inl, inr, map, map, ℕ, ◌+◌, ◌-◌, ◌≤◌, Bool, false, not,
  Option, none, some, List, [], ◌∷◌, ◌≡◌, refl, arith, find, select, if◌then◌else◌, String, str_eq,
}

pub record Line : Type 0 where
  pub name : String
  pub rx : ℕ
  pub tx : ℕ
  pub rx_packets : ℕ
  pub tx_packets : ℕ

-- A field of `now`: the name and the counters.
pub record Entry : Type 0 where
  pub name : String
  pub rx : ℕ
  pub tx : ℕ

pub record NetworkInterface : Type 0 where
  pub name : String
  pub rx_bytes : ℕ
  pub tx_bytes : ℕ
  pub rx_packets : ℕ
  pub tx_packets : ℕ

-- Later fields of an object replace earlier ones of the same name.
unfoldable pub entries_of : List Line → List Entry → List Entry
entries_of [] acc = acc
entries_of (l ∷ ls) acc = entries_of ls (record { name = l.name; rx = l.rx; tx = l.tx } ∷ acc)

abbrev pub entry_of : String → List Entry → Option Entry
entry_of name es = find (λ e. str_eq e.name name) es

-- `Math.max(0, now - before)`, and 0 without an earlier entry.
abbrev pub delta : Option ℕ → ℕ → ℕ
delta none now = 0
delta (some before) now = now - before

abbrev pub rx_of : Option Entry → Option ℕ
rx_of none = none
rx_of (some e) = some e.rx

abbrev pub tx_of : Option Entry → Option ℕ
tx_of none = none
tx_of (some e) = some e.tx

abbrev pub interface_of : List Entry → Line → NetworkInterface
interface_of prev l =
    let before = entry_of l.name prev in
    record {
      name = l.name;
      rx_bytes = delta (rx_of before) l.rx;
      tx_bytes = delta (tx_of before) l.tx;
      rx_packets = l.rx_packets;
      tx_packets = l.tx_packets;
    }

-- The interfaces but the loopback, and what is kept for the next poll.
unfoldable pub parse_network : List Entry → List Line → List NetworkInterface × List Entry
unfolding entries_of
parse_network prev lines =
    (select (λ i. not (str_eq i.name "lo")) (map (interface_of prev) lines), entries_of lines [])

abbrev pub named : String → Line → Bool
named name l = str_eq l.name name

-- The bytes that a report has for an interface.
abbrev pub rx_in : String → List NetworkInterface → ℕ
rx_in name [] = 0
rx_in name (i ∷ is) = (if str_eq i.name name then i.rx_bytes else 0) + rx_in name is

abbrev pub counter : String → List Line → Option ℕ
counter name [] = none
counter name (l ∷ ls) = if named name l then some l.rx else counter name ls

-- Polls one after the other, each with the counter that it reads, and the bytes they report together.
abbrev pub Poll : Type 0
Poll = List Line × ℕ

unfoldable pub received : String → List Entry → List Poll → ℕ
unfolding parse_network
received name prev [] = 0
received name prev ((lines, c) ∷ polls) =
    rx_in name (parse_network prev lines).0 + received name (parse_network prev lines).1 polls

-- Every poll has one line for the interface, and its counter never falls from the first value on.
abbrev pub Grows : String → ℕ → List Poll → ℕ → Type 0
Grows name first [] last = first ≡ last
Grows name first ((lines, c) ∷ polls) last =
    (count_if (named name) lines ≡ 1)
    × (counter name lines ≡ some c)
    × (first ≤ c)
    × Grows name c polls last

entries_without :
    (name : String) (lines : List Line) (acc : List Entry)
    → count_if (named name) lines ≡ 0
    → entry_of name (entries_of lines acc) ≡ entry_of name acc
unfolding entries_of
entries_without name [] acc h = refl
entries_without name (l ∷ ls) acc h = elim (Bool-cases (named name l)) [
  | inl e ↦ let bad : ⊥ = ground (arith, h, e) in elim bad [ ]
  | inr e ↦
      let one : Entry = record { name = l.name; rx = l.rx; tx = l.tx } in
      entries_without name ls (one ∷ acc) (ground (arith, h, e)) ∙ ground (arith, e)
]

entries_with :
    (name : String) (lines : List Line) (acc : List Entry)
    → count_if (named name) lines ≡ 1
    → rx_of (entry_of name (entries_of lines acc)) ≡ counter name lines
unfolding entries_of
entries_with name [] acc h = ground arith
entries_with name (l ∷ ls) acc h =
    let one : Entry = record { name = l.name; rx = l.rx; tx = l.tx } in
    elim (Bool-cases (named name l)) [
      | inl e ↦
          ap rx_of (entries_without name ls (one ∷ acc) (ground (arith, h, e))) ∙ ground (arith, e)
      | inr e ↦ entries_with name ls (one ∷ acc) (ground (arith, h, e)) ∙ ground (arith, e)
    ]

abbrev report : List Entry → List Line → List NetworkInterface
report prev lines = select (λ i. not (str_eq i.name "lo")) (map (interface_of prev) lines)

report_without :
    (name : String) (prev : List Entry) (lines : List Line)
    → count_if (named name) lines ≡ 0
    → rx_in name (report prev lines) ≡ 0
report_without name prev [] h = refl
report_without name prev (l ∷ ls) h =
    let e : named name l ≡ false = ground (arith, h) in
    let rest = report_without name prev ls (ground (arith, h, e)) in
    elim (Bool-cases (str_eq l.name "lo")) [
      | inl i ↦ rw i rest
      | inr i ↦ rw (i, rx_in, e) (omega (arith, rest))
    ]

report_with :
    (name : String) (prev : List Entry) (lines : List Line) (before c : ℕ)
    → str_eq name "lo" ≡ false
    → rx_of (entry_of name prev) ≡ some before
    → count_if (named name) lines ≡ 1
    → counter name lines ≡ some c
    → rx_in name (report prev lines) ≡ c - before
report_with name prev [] before c n p h k = ground arith
report_with name prev (l ∷ ls) before c n p h k = elim (Bool-cases (named name l)) [
  | inl e ↦
      let same : l.name ≡ name = (str_eq_iff l.name name).0 e in
      let value : some l.rx ≡ some c = ground (arith, k, e) in
      let rest = report_without name prev ls (ground (arith, h, e)) in
      let i : str_eq l.name "lo" ≡ false = rw same n in
      let q : rx_of (entry_of l.name prev) ≡ some before = rw same p in
      rw (i, rx_in, e, q) (ground (arith, rest, value))
  | inr e ↦
      let rest =
        report_with name prev ls before c n p (ground (arith, h, e)) (ground (arith, k, e)) in
      elim (Bool-cases (str_eq l.name "lo")) [
        | inl i ↦ rw i rest
        | inr i ↦ rw (i, rx_in, e) (omega (arith, rest))
      ]
]

-- The bytes that the polls report for an interface other than the loopback are the difference of the
-- last and the first value of its counter, if the counter never falls.
pub received_lem :
    (name : String) (prev : List Entry) (first last : ℕ) (polls : List Poll)
    → str_eq name "lo" ≡ false
    → rx_of (entry_of name prev) ≡ some first
    → Grows name first polls last
    → first + received name prev polls ≡ last
unfolding received parse_network
received_lem name prev first last [] n p g = ground (arith, g)
received_lem name prev first last ((lines, c) ∷ polls) n p (h, k, l, g) =
    let rest =
      received_lem name (entries_of lines []) c last polls n (entries_with name lines [] h ∙ k) g in
    let now = report_with name prev lines first c n p h k in omega (arith, rest, now, l)
