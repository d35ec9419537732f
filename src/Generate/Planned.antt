-- ===== src/Generate/Planned.antt =====
-- What `Distribution.check` of src/service/generate.py lets pass, and the ballots drawn from it.
use online_voting_poc.Prelude.{
  ℕ, ◌+◌, ◌≤◌, ◌≡◌, refl, ap, sym, ◌∙◌, Bool, true, false, ◌||◌, Option, none, some, List, [], ◌∷◌,
  ◌++◌, contains, Distinct, length, length-append, if◌then◌else◌, arith, Bool-cases, inl, inr,
}
use online_voting_poc.Prelude.Int.{ℤ, pos, negsuc, in_range, int_eq_iff, ℤ-eq}
use online_voting_poc.Prelude.Dict.{Dict, keys, values}
use online_voting_poc.Generate.{
  Distribution, casting, submissions, sort_items, extend, selections, check, check_options,
  check_protest, any_negative, raise_if, ◌unless◌, PlanError, negative_count, no_ballots,
  too_many_revotes,
}
use online_voting_poc.Generate.Int.{◌+ℤ◌, int_ltb, sum}
use online_voting_poc.Generate.Drawn.{
  times, planned, times-append, times-sort_items, length-sort_items, length-extend,
  times-extend_absent, times-extend,
}

options-outside :
    (n : ℕ) (s : ℤ) (d : Dict ℤ ℤ)
    → check_options n d ≡ none
    → in_range n s ≡ false
    → contains s (keys d) ≡ false
unfolding check_options
options-outside n s [] h out = refl
options-outside n s ((q, c) ∷ d) h out = ground (arith, int_eq_iff s q, options-outside n s d)

protest-inside :
    (n : ℕ) (s : ℤ) (d : Dict ℤ ℤ)
    → check_protest n d ≡ none
    → in_range n s ≡ true
    → contains s (keys d) ≡ false
unfolding check_protest
protest-inside n s [] h inside = refl
protest-inside n s ((q, c) ∷ d) h inside = ground (arith, int_eq_iff s q, protest-inside n s d)

unless-none : (a b : Option PlanError) → (a unless b) ≡ none → (a ≡ none) × (b ≡ none)
unless-none none b h = (refl, h)
unless-none (some e) b h = absurd (ground arith)

raise_if-none : (b : Bool) (e : PlanError) → raise_if b e ≡ none → b ≡ false
raise_if-none b e h = ground arith

any_negative-append :
    (xs ys : List ℤ) → any_negative (xs ++ ys) ≡ (any_negative xs || any_negative ys)
any_negative-append [] ys = refl
any_negative-append (x ∷ xs) ys = ground (arith, any_negative-append xs ys)

-- What a plan that passes every check has.
pub record Passes (n : ℕ) (d : Distribution) : Type 0 where
  pub options : check_options n d.per_option ≡ none
  pub protests : check_protest n d.protest ≡ none
  pub per_option_counts : any_negative (values d.per_option) ≡ false
  pub protest_counts : any_negative (values d.protest) ≡ false
  pub some_cast : int_ltb (casting d) (pos 1) ≡ false
  pub abstentions_counted : int_ltb d.abstentions (pos 0) ≡ false
  pub revotes_counted : int_ltb d.revotes (pos 0) ≡ false
  pub enough_cast : int_ltb (casting d) d.revotes ≡ false

pub check-Passes : (n : ℕ) (d : Distribution) → check n d ≡ none → Passes n d
unfolding check
check-Passes n d h =
    let (options, h1) = unless-none _ _ h in
    let (protests, h2) = unless-none _ _ h1 in
    let (counts, h3) = unless-none _ _ h2 in
    let (others, h4) = unless-none _ _ h3 in
    let (none_cast, many) = unless-none _ _ h4 in
    let split =
      sym (any_negative-append (values d.per_option) (values d.protest))
      ∙ raise_if-none (any_negative (values d.per_option ++ values d.protest)) negative_count
          counts in
    let other =
      raise_if-none (int_ltb d.abstentions (pos 0) || int_ltb d.revotes (pos 0)) negative_count
        others in
    record {
      options = options;
      protests = protests;
      per_option_counts = ground (arith, split);
      protest_counts = ground (arith, split);
      some_cast = raise_if-none (int_ltb (casting d) (pos 1)) no_ballots none_cast;
      abstentions_counted = ground (arith, other);
      revotes_counted = ground (arith, other);
      enough_cast = raise_if-none (int_ltb (casting d) d.revotes) too_many_revotes many;
    }

pub length-selections :
    (n : ℕ) (d : Distribution) → Passes n d → pos (length (selections d)) ≡ casting d
unfolding selections casting
length-selections n d p =
    let options = extend (sort_items d.per_option) in
    let protests = extend (sort_items d.protest) in
    ap pos (
      omega (
        arith,
        length-append options protests,
        length-sort_items d.per_option,
        length-sort_items d.protest,
      ))
    ∙ ap (λ z. z +ℤ pos (length (extend d.protest)))
        (length-extend d.per_option p.per_option_counts)
    ∙ ap (λ z. sum (values d.per_option) +ℤ z) (length-extend d.protest p.protest_counts)

pub times-selections :
    (n : ℕ) (s : ℤ) (d : Distribution)
    → Distinct (keys d.per_option)
    → Distinct (keys d.protest)
    → Passes n d
    → pos (times s (selections d))
      ≡ (if in_range n s then planned s d.per_option else planned s d.protest)
unfolding selections
times-selections n s d options protests p =
    let drawn = times-append s (extend (sort_items d.per_option)) (extend (sort_items d.protest)) in
    let of_options = times-sort_items s d.per_option in
    let of_protests = times-sort_items s d.protest in
    elim (Bool-cases (in_range n s)) [
      | inl inside ↦ rw inside (
          ap pos (
            omega (
              arith,
              drawn,
              of_options,
              of_protests,
              times-extend_absent s d.protest (protest-inside n s d.protest p.protests inside),
            ))
          ∙ times-extend s d.per_option options p.per_option_counts)
      | inr outside ↦ rw outside (
          ap pos (
            omega (
              arith,
              drawn,
              of_options,
              of_protests,
              times-extend_absent s d.per_option
                  (options-outside n s d.per_option p.options outside),
            ))
          ∙ times-extend s d.protest protests p.protest_counts)
    ]

pub counted :
    (z : ℤ) (n : ℕ)
    → int_ltb (pos n) z ≡ false
    → int_ltb z (pos 0) ≡ false
    → (m : ℕ) × (z ≡ pos m) × (m ≤ n)
counted (pos m) n small _ = (m, refl, ground arith)
counted (negsuc m) n _ nonneg = absurd (ground arith)

-- A plan that `Distribution.check` lets pass, the two dictionaries of which name no selection
-- twice: at least one ballot is drawn, as many as `casting` says, and no fewer than citizens
-- vote twice; so `submissions` is at most twice that number. Every selection is drawn as often as
-- the plan asks: in `per_option` for one that the ballot offers, in `protest` for any other.
pub check-selections :
    (n : ℕ) (d : Distribution)
    → Distinct (keys d.per_option)
    → Distinct (keys d.protest)
    → check n d ≡ none
    → (pos (length (selections d)) ≡ casting d)
      × (1 ≤ length (selections d))
      × ((revotes : ℕ) × (d.revotes ≡ pos revotes)
          × (revotes ≤ length (selections d))
          × (submissions d ≡ pos (length (selections d) + revotes)))
      × ((s : ℤ)
          → pos (times s (selections d))
            ≡ (if in_range n s then planned s d.per_option else planned s d.protest))
unfolding submissions
check-selections n d options protests h =
    let p = check-Passes n d h in
    let drawn = length-selections n d p in
    let enough = ap (λ z. int_ltb z d.revotes) drawn ∙ p.enough_cast in
    let (revotes, same, most) =
      counted d.revotes (length (selections d)) enough p.revotes_counted in
    let some_cast = ap (λ z. int_ltb z (pos 1)) drawn ∙ p.some_cast in
    (
      drawn,
      ground (arith, some_cast),
      (
        revotes,
        same,
        most,
        ap (λ z. z +ℤ d.revotes) (sym drawn) ∙ ap (λ z. pos (length (selections d)) +ℤ z) same,
      ),
      λ s. times-selections n s d options protests p,
    )
