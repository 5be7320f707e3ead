-- ===== src/Networking/Ports/Reading.antt =====
-- pkg/networking/ports.go: what is printed is read back.
use blipblop.Base.{
  ℕ, zero, suc, Text, ◌+◌, ◌*◌, ◌/◌, ◌%◌, ◌^◌, ◌≤◌, ◌<◌, ◌≡◌, ◌≢◌, refl, ap, ◌∙◌, false, Bool-cases,
  inl, inr, some, [], ◌∷◌, ◌++◌, nat_eq, ltb, ltb→lt, lt→ltb, All, arith,
}
use blipblop.Networking.{CniPort}
use blipblop.Networking.Ports.{
  Ports, digits, to_text, onto_first, split, scan, below, magnitude, as_uint32, signed, atoi_uint32,
  both, two, parse_ports, int32_text, parse_port_mapping,
}

abbrev pub IsDigit : ℕ → Type 0
IsDigit c = (b'0' ≤ c) × (c ≤ b'9')

digits-append :
    (fuel n : ℕ) (out more : Text) → digits fuel n (out ++ more) ≡ digits fuel n out ++ more
unfolding digits
digits-append zero n out more = refl
digits-append (suc fuel) n out more =
    ground (arith, digits-append fuel (n / 10) ((b'0' + n % 10) ∷ out) more)

digits-IsDigit :
    (fuel n : ℕ) (out : Text) → n < 10 ^ fuel → All IsDigit out → All IsDigit (digits fuel n out)
unfolding digits
digits-IsDigit zero n out h w = w
digits-IsDigit (suc fuel) n out h w = elim (Bool-cases (ltb n 10)) [
  | inl one ↦ rw one ((omega arith, let small = ltb→lt n 10 one in omega arith), w)
  | inr more ↦
      rw more (digits-IsDigit fuel (n / 10) _ (omega arith) (((omega arith), (omega arith)), w))
]

-- a digit is read
scan-digit :
    (d m n : ℕ) (out : Text) → d < 10 → m * 10 + d ≡ n → scan m ((b'0' + d) ∷ out) ≡ scan n out
unfolding scan
scan-digit d m n out h e = ground arith

-- Reading goes on behind the number that was printed.
scan-digits :
    (fuel n : ℕ) (out : Text) → n < 10 ^ fuel → 0 < fuel → scan 0 (digits fuel n out) ≡ scan n out
unfolding digits
scan-digits zero n out h more = absurd (omega arith)
scan-digits (suc fuel) n out h more = elim (Bool-cases (ltb n 10)) [
  | inl one ↦ rw one (scan-digit n 0 n out (ltb→lt n 10 one) (omega arith))
  | inr many ↦
      let large : 10 ≤ n = grind (arith, many) in
      rw many (
        scan-digits fuel (n / 10) ((b'0' + n % 10) ∷ out) (omega arith) (positive fuel n h large)
        ∙ scan-digit (n % 10) (n / 10) n out (omega arith) (omega arith))
]
  where
    positive : (fuel n : ℕ) → n < 10 ^ suc fuel → 10 ≤ n → 0 < fuel
    positive zero n h large = absurd (omega arith)
    positive (suc fuel) n h large = omega arith

split-append : (s t : Text) → All IsDigit s → split (s ++ b':' ∷ t) ≡ s ∷ split t
unfolding split onto_first
split-append [] t w = refl
split-append (c ∷ s) t w = ground (arith, split-append s t w.1)

split-digits : (s : Text) → All IsDigit s → split s ≡ s ∷ []
unfolding split onto_first
split-digits [] w = refl
split-digits (c ∷ s) w = ground (arith, split-digits s w.1)

-- What starts with a digit has no sign.
atoi-digit :
    (c : ℕ) (s : Text) → IsDigit c → atoi_uint32 (c ∷ s) ≡ signed false (magnitude (2 ^ 63) (c ∷ s))
unfolding atoi_uint32
atoi-digit c s w = ground arith

magnitude-read :
    (c n : ℕ) (s : Text)
    → scan 0 (c ∷ s) ≡ some n
    → n < 2 ^ 32
    → signed false (magnitude (2 ^ 63) (c ∷ s)) ≡ some n
unfolding magnitude
magnitude-read c n s read h = ap (λ o. signed false (below (2 ^ 63) o)) read ∙ small
  where
    small : signed false (below (2 ^ 63) (some n)) ≡ some n
    small = unfold below signed as_uint32 in ground arith

digits-ne-nil : (fuel n d : ℕ) (out : Text) → digits fuel n (d ∷ out) ≢ []
unfolding digits
digits-ne-nil zero n d out e = cc e
digits-ne-nil (suc fuel) n d out e = elim (Bool-cases (ltb n 10)) [
  | inl one ↦ cc (rw one at e)
  | inr many ↦ digits-ne-nil fuel (n / 10) (b'0' + n % 10) (d ∷ out) (rw many at e)
]

atoi-digits :
    (s : Text) (n : ℕ)
    → All IsDigit s
    → s ≢ []
    → scan 0 s ≡ some n
    → n < 2 ^ 32
    → atoi_uint32 s ≡ some n
atoi-digits [] n w some_digit read h = absurd (some_digit refl)
atoi-digits (c ∷ s) n w some_digit read h = atoi-digit c s w.0 ∙ magnitude-read c n s read h

one_digit : (n : ℕ) → digits 10 n [] ≢ []
unfolding digits
one_digit n e = elim (Bool-cases (ltb n 10)) [
  | inl one ↦ cc (rw one at e)
  | inr many ↦ digits-ne-nil 9 (n / 10) (b'0' + n % 10) [] (rw many at e)
]

atoi-print : (n : ℕ) → n < 2 ^ 32 → atoi_uint32 (digits 10 n []) ≡ some n
atoi-print n h =
    atoi-digits (digits 10 n []) n (digits-IsDigit 10 n [] (omega arith) tt) (one_digit n)
      (scan-digits 10 n [] (omega arith) (omega arith) ∙ unfold scan in refl) h

both-read :
    (a b : Text) (n m : ℕ)
    → atoi_uint32 a ≡ some n
    → atoi_uint32 b ≡ some m
    → two (a ∷ b ∷ []) ≡ some (record { source = n; destination = m })
unfolding two both
both-read a b n m h k = rw (h, k) refl

-- ParsePorts reads what String prints of two uint32.
pub parse_ports-to_text :
    (p : Ports) → p.source < 2 ^ 32 → p.destination < 2 ^ 32 → parse_ports (to_text p) ≡ some p
unfolding parse_ports to_text
parse_ports-to_text p h k =
    let a = digits 10 p.source [] in
    let b = digits 10 p.destination [] in
    let digits_a : All IsDigit a = digits-IsDigit 10 p.source [] (omega arith) tt in
    let digits_b : All IsDigit b = digits-IsDigit 10 p.destination [] (omega arith) tt in
    ap (λ s. two (split s)) (digits-append 10 p.source [] (b':' ∷ b))
    ∙ ap two (split-append a b digits_a ∙ ap (λ l. a ∷ l) (split-digits b digits_b))
    ∙ both-read a b p.source p.destination (atoi-print p.source h) (atoi-print p.destination k)

-- The name that ParsePortMapping gives to a mapping is read as its two ports.
pub parse_ports-name :
    (pm : CniPort)
    → pm.host_port < 2 ^ 31
    → pm.container_port < 2 ^ 31
    → parse_ports (parse_port_mapping pm).name
      ≡ some (record { source = pm.host_port; destination = pm.container_port })
unfolding parse_port_mapping
parse_ports-name pm h k =
    ap parse_ports (
      positive pm.host_port h _
      ∙ ap (λ s. digits 10 pm.host_port (b':' ∷ s)) (positive pm.container_port k []))
    ∙ unfold to_text in
      parse_ports-to_text (record { source = pm.host_port; destination = pm.container_port })
        (omega arith) (omega arith)
  where
    positive : (n : ℕ) → n < 2 ^ 31 → (out : Text) → int32_text n out ≡ digits 10 n out
    positive n small out = unfold int32_text in rw (lt→ltb n (2 ^ 31) small) refl
