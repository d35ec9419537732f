-- ===== src/PdfRequest/Checked.antt =====
-- What `check` of src/ovpoc/pdfrequest.py accepts.
use Prim.Native.String.{String}
use online_voting_poc.Prelude.{
  ℕ, zero, suc, ◌≤◌, ◌≡◌, refl, ap, sym, ◌∙◌, ◌↔◌, inl, inr, not, Option, none, some, [], ◌∷◌, ◌++◌,
  length, take, drop, ltb, List-eq, ◌==◌, eq_iff, arith, Option-cases, take-append, if◌then◌else◌,
}
use online_voting_poc.Bytes.{Bytes}
use online_voting_poc.Base64.{unb64}
use online_voting_poc.Json.Value.{Value}
use online_voting_poc.Crypto.{Crypto}
use online_voting_poc.PdfRequest.{
  DocumentCheck, Refusal, accepted, refused, not_as_rendered, signature_does_not_cover_it,
  Extracted, candidate, nothing, extract, check,
}
use online_voting_poc.PdfRequest.Render.{Payload, well_formed_payload, decoded_key, render}

take-drop : (n : ℕ) (xs : Bytes) → take n xs ++ drop n xs ≡ xs
take-drop zero xs = refl
take-drop (suc n) [] = refl
take-drop (suc n) (x ∷ xs) = ap (◌∷◌ x) (take-drop n xs)

module _ ⦃crypto : Crypto⦄ where
  -- The document begins with what its payload is written as, and the signature covers all of that.
  pub record IsRequest (document : Bytes) (covered : ℕ) (p : Payload) : Type 0 where
    pub rendered : Bytes
    pub tail : Bytes
    pub is_rendered : render p ≡ some rendered
    pub begins : document ≡ rendered ++ tail
    pub is_covered : length rendered ≤ covered

  pub rendered-decoded_key :
      (p : Payload) (bytes : Bytes)
      → render p ≡ some bytes
      → unb64 p.blinded_key ≡ some (decoded_key p)
  unfolding render well_formed_payload decoded_key
  rendered-decoded_key p bytes h = ground arith

  abbrev compare_rendered : Bytes → ℕ → Payload → String → Option Bytes → DocumentCheck
  compare_rendered document covered p place none = refused not_as_rendered none
  compare_rendered document covered p place (some expected) =
      if not (take (length expected) document == expected)
      then refused not_as_rendered (some (length expected))
      else if ltb covered (length expected)
      then refused signature_does_not_cover_it (some (length expected))
      else accepted p place (length expected)

  candidate-check :
      (loads : Bytes → Option Value) (document : Bytes) (covered : ℕ) (p : Payload) (place : String)
      → extract loads document ≡ candidate p place
      → check loads document covered ≡ compare_rendered document covered p place (render p)
  unfolding check
  candidate-check loads document covered p place h = elim (Option-cases (render p)) [
    | inl bad ↦ rw (h, check, bad)
    | inr (bytes, good) ↦ rw (h, check, good)
  ]

  nothing-check :
      (loads : Bytes → Option Value) (document : Bytes) (covered : ℕ) (r : Refusal)
      → extract loads document ≡ nothing r
      → check loads document covered ≡ refused r none
  unfolding check
  nothing-check loads document covered r h = rw (h, check)

  -- The office accepts a document exactly if its payload can be extracted, the document begins with
  -- what that payload is written as, byte for byte, and the signature covers it.
  pub check-accepted_iff :
      (loads : Bytes → Option Value) (document : Bytes) (covered : ℕ) (p : Payload)
      → ((place : String) × (n : ℕ) × (check loads document covered ≡ accepted p place n)) ↔ (
          ((place : String) × (extract loads document ≡ candidate p place))
          × IsRequest document covered p)
  check-accepted_iff loads document covered p = (forth, back)
    where
      Found : Type 0
      Found =
          ((place : String) × (extract loads document ≡ candidate p place))
          × IsRequest document covered p

      from_none :
          (q : Payload) (place place' : String) (n : ℕ)
          → compare_rendered document covered q place none ≡ accepted p place' n
          → ⊥
      from_none q place place' n h = cc

      from_some :
          (q : Payload) (bytes : Bytes) (place place' : String) (n : ℕ)
          → compare_rendered document covered q place (some bytes) ≡ accepted p place' n
          → (q ≡ p) × (take (length bytes) document ≡ bytes) × (length bytes ≤ covered)
      from_some q bytes place place' n h =
          ground (arith, eq_iff (take (length bytes) document) bytes)

      refused_only :
          (r : Refusal) (place : String) (n : ℕ) → refused r none ≡ accepted p place n → ⊥
      refused_only r place n h = cc

      extracted :
          (e : Extracted)
          → extract loads document ≡ e
          → (place : String) (n : ℕ) → check loads document covered ≡ accepted p place n
          → Found
      extracted (nothing r) e place n h =
          absurd (refused_only r place n (sym (nothing-check loads document covered r e) ∙ h))
      extracted (candidate q place) e place' n h =
          let g = sym (candidate-check loads document covered q place e) ∙ h in
          elim (Option-cases (render q)) [
            | inl bad ↦ absurd (
                from_none q place place' n
                  (ap (compare_rendered document covered q place) (sym bad) ∙ g))
            | inr (bytes, good) ↦
                let (same, begins, covers) =
                  from_some q bytes place place' n
                    (ap (compare_rendered document covered q place) (sym good) ∙ g) in
                (
                  (place, e ∙ ap (λ x. candidate x place) same),
                  record {
                    rendered = bytes;
                    tail = drop (length bytes) document;
                    is_rendered = ap render (sym same) ∙ good;
                    begins =
                        sym (take-drop (length bytes) document)
                        ∙ ap (λ x. x ++ drop (length bytes) document) begins;
                    is_covered = covers;
                  },
                )
          ]

      taken :
          (bytes tail : Bytes)
          → length bytes ≤ covered
          → document ≡ bytes ++ tail
          → (place : String)
          → compare_rendered document covered p place (some bytes) ≡ accepted p place (length bytes)
      taken bytes tail covers begins place =
          let whole : take (length bytes) document ≡ bytes =
            ap (take (length bytes)) begins ∙ take-append bytes tail in
          ground (arith, eq_iff (take (length bytes) document) bytes)

      forth :
          ((place : String) × (n : ℕ) × (check loads document covered ≡ accepted p place n))
          → ((place : String) × (extract loads document ≡ candidate p place))
            × IsRequest document covered p
      forth (place, n, h) = extracted (extract loads document) refl place n h

      back :
          ((place : String) × (extract loads document ≡ candidate p place))
            × IsRequest document covered p
          → (place : String) × (n : ℕ) × (check loads document covered ≡ accepted p place n)
      back ((place, e), r) = (
        place,
        length r.rendered,
        candidate-check loads document covered p place e
            ∙ ap (compare_rendered document covered p place) r.is_rendered
            ∙ taken r.rendered r.tail r.is_covered r.begins place,
      )
