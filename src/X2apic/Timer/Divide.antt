-- ===== src/X2apic/Timer/Divide.antt =====
-- What a change of the divisor does to the count that is left.
use native.Mathlib.Nat.{div-add-mod, mod-lt, mod-eq_of_lt, mul_comm}
use workhorse_rt.Common.{
  sym, subst, not, ◌||◌, ℕ, ◌+◌, ◌*◌, ◌/◌, ◌%◌, ◌^◌, ◌≤◌, ◌<◌, ◌≡◌, refl, ◌∙◌, ap, Bool, true,
  false, ◌&&◌, Option, none, some, ◌==◌, if◌then◌else◌, arith, Bool-cases, inl, inr,
}
use workhorse_rt.Bitmap.Bytes.{passes, passes-at}
use workhorse_rt.X2apic.Timer.{
  Timer, divider, compress_counter, decompress_counter, start, reset_counter, read_counter, set_dcr,
  write_div_conf,
}

abbrev pub is_divide : ℕ → Bool
is_divide val = val / 16 == 0 && val / 4 % 2 == 0

-- Every value that may be written names a divisor.
divider_positive : (val d : ℕ) → divider val ≡ some d → 0 < d
unfolding divider
divider_positive val d e = ground (arith, e)

-- The divisor of a value that may be written: the bits 0, 1 and 3 count the powers of two from 2 to
-- 128, and 1 comes last.
abbrev pub divisor_of : ℕ → ℕ
divisor_of val = 2 ^ ((val % 4 + val / 8 * 4 + 1) % 8)

abbrev named_by : Option ℕ → ℕ → Bool
named_by none n = false
named_by (some d) n = d == n

abbrev check_divide : ℕ → Bool
check_divide val = not (is_divide val) || named_by (divider val) (divisor_of val)

divide_table : passes check_divide 16 ≡ true
unfolding passes check_divide divider
divide_table = refl

divider-divisor_of : (val : ℕ) → is_divide val ≡ true → divider val ≡ some (divisor_of val)
divider-divisor_of val e = at (divider val) refl
  where
    checked : named_by (divider val) (divisor_of val) ≡ true
    checked =
        let c = passes-at check_divide 16 val (ground (arith, e)) divide_table in
        second (is_divide val) (named_by (divider val) (divisor_of val)) e c
      where
        second : (a b : Bool) → a ≡ true → (not a || b) ≡ true → b ≡ true
        second a b f g = ground (arith, f, g)

    at : (o : Option ℕ) → divider val ≡ o → divider val ≡ some (divisor_of val)
    at none h = absurd (cc (ap (λ o. named_by o (divisor_of val)) (sym h) ∙ checked))
    at (some d) h =
        let c = ap (λ o. named_by o (divisor_of val)) (sym h) ∙ checked in
        let same : d ≡ divisor_of val = equal d (divisor_of val) c in h ∙ ap some same
      where
        equal : (a b : ℕ) → (a == b) ≡ true → a ≡ b
        equal a b f = ground (arith, f)

divisor_of_positive : (val : ℕ) → is_divide val ≡ true → 0 < divisor_of val
divisor_of_positive val e = divider_positive val (divisor_of val) (divider-divisor_of val e)

-- A count in units of `d`, back in ticks.
divided : (n d : ℕ) → 0 < d → (n / d * d ≤ n) × (n < n / d * d + d)
divided n d pos =
    let whole = div-add-mod n d in
    let part = mod-lt n pos in
    let swap : n / d * d ≡ d * (n / d) = mul_comm (n / d) d in (omega arith, omega arith)

-- What is left of a count of `ticks` after a write, and that it fits again.
pub record Divided (val ticks : ℕ) (u : Timer) : Type 0 where
  pub left : ℕ
  pub written : u.dcr ≡ val
  pub read : read_counter u ≡ some left
  pub no_more : left ≤ ticks
  pub less_than_one : ticks < left + divisor_of val
  pub fits : u.value * divisor_of val < 2 ^ 32
  pub runs : u.enabled ≡ true

read_running :
    (u : Timer) (d : ℕ)
    → u.enabled ≡ true
    → divider u.dcr ≡ some d
    → u.value * d < 2 ^ 32
    → read_counter u ≡ some (u.value * d)
unfolding read_counter decompress_counter
read_running u d on e fits = rw (on, e, mod-eq_of_lt fits) refl

set_dcr-Divided :
    (val old d : ℕ) (t : Timer)
    → divider t.dcr ≡ some old
    → 0 < old
    → divider val ≡ some d
    → d ≡ divisor_of val
    → 0 < d
    → t.enabled ≡ true
    → t.value * old < 2 ^ 32
    → (u : Timer) × (set_dcr val t ≡ some u) × Divided val (t.value * old) u
unfolding set_dcr decompress_counter
set_dcr-Divided val old d t e pos f named pos' on fits = elim (Bool-cases (val == t.dcr)) [
  | inl same ↦
      let eq : val ≡ t.dcr = ground (arith, same) in
      let u : Timer = record t { dcr = val } in
      let f' : divider val ≡ some old = ap divider eq ∙ e in
      let unit : old ≡ divisor_of val = some_eq (sym f' ∙ f) ∙ named in
      (
        u,
        rw same refl,
        record {
          left = t.value * old;
          written = refl;
          read = read_running u old on f' fits;
          no_more = omega arith;
          less_than_one = subst (λ n. t.value * old < t.value * old + n) unit (omega arith);
          fits = subst (λ n. t.value * n < 2 ^ 32) unit fits;
          runs = on;
        },
      )
  | inr other ↦
      let n = t.value * old in
      let u : Timer = record t { dcr = val; value = n / d } in
      let bounds = divided n d pos' in
      let small : n / d * d < 2 ^ 32 = (let b = bounds.0 in omega arith) in
      (
        u,
        rw (other, on, e, mod-eq_of_lt fits, f) refl,
        record {
          left = n / d * d;
          written = refl;
          read = read_running u d on f small;
          no_more = bounds.0;
          less_than_one = subst (λ m. n < n / d * d + m) named bounds.1;
          fits = subst (λ m. n / d * m < 2 ^ 32) named small;
          runs = on;
        },
      )
]
  where
    some_eq : {a b : ℕ} → some a ≡ some b → a ≡ b
    some_eq h = cc

-- While the timer runs with a divisor that may be written, and its count of ticks fits in 32 bits, every
-- value that may be written to the divide configuration register is taken and fails no assertion. The
-- timer runs on with the divisor that the value stands for, and the count that is read after the write
-- is no more than that of before, and less than one unit of the new divisor less.
pub write_div_conf-Divided :
    (val : ℕ) (t : Timer)
    → is_divide val ≡ true
    → is_divide t.dcr ≡ true
    → t.enabled ≡ true
    → t.value * divisor_of t.dcr < 2 ^ 32
    → (read_counter t ≡ some (t.value * divisor_of t.dcr))
      × ((u : Timer) × (write_div_conf val t ≡ some (true, u))
          × Divided val (t.value * divisor_of t.dcr) u)
unfolding write_div_conf
write_div_conf-Divided val t valid valid_now on fits =
    let e = divider-divisor_of t.dcr valid_now in
    let (u, ran, divided_now) =
      set_dcr-Divided val (divisor_of t.dcr) (divisor_of val) t e
        (divisor_of_positive t.dcr valid_now) (divider-divisor_of val valid) refl
        (divisor_of_positive val valid) on fits in
    (read_running t (divisor_of t.dcr) on e fits, (u, rw (valid, ran) refl, divided_now))

-- A timer that is started counts down from its initial count, in whole units of the divisor.
pub reset_counter-read :
    (t : Timer) (d : ℕ)
    → (t.init_count == 0) ≡ false
    → t.init_count < 2 ^ 32
    → divider t.dcr ≡ some d
    → (u : Timer) × (reset_counter t ≡ some u)
      × (read_counter u ≡ some (t.init_count / d * d))
      × (u.value * d < 2 ^ 32)
unfolding reset_counter compress_counter start
reset_counter-read t d counts small e =
    let u : Timer = record t {
      value = t.init_count / d;
      enabled = true;
      saved = if t.enabled then t.saved else true;
    } in
    let bounds = divided t.init_count d (divider_positive t.dcr d e) in
    let fits : t.init_count / d * d < 2 ^ 32 = (let b = bounds.0 in omega arith) in
    (u, rw (counts, e) refl, read_running u d refl e fits, fits)
