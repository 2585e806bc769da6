-- ===== src/Formats/Converter/Writes.antt =====
-- What the writer does keeps the invariant, and so does every step.
use framer.Base.{
  suc, ◌≡◌, refl, sym, ap, ap₂, subst, ◌∙◌, [], ◌∷◌, ◌++◌, true, false, inl, inr, ◌⊎◌, Bool-cases,
  append-nil,
}
use framer.Formats.Converter.{Job, ConvertItem, Converting, Status, Writer, converted, write_item}
use framer.Formats.Converter.Invariant.{writes, failures, IsLogged, IsClosing}

module _ {M : Type 0} (J : Job M) where
  -- An item is written, or its number is, or the writer fails.
  pub write_item_cases :
      (x : ConvertItem M) (w : Writer M)
      → ((x.convert_err ≡ true)
          × (write_item J x w ≡ record w { i = suc w.i; errors = w.errors ++ suc w.i ∷ [] }))
        ⊎ (((x.convert_err ≡ false)
              × (write_item J x w
                  ≡ record w { i = suc w.i; written = w.written ++ x.message ∷ [] }))
            ⊎ (write_item J x w ≡ record w { i = suc w.i; status = Status.failed }))
  unfolding write_item
  write_item_cases x w = elim (Bool-cases x.convert_err) [
    | inl p ↦ elim (Bool-cases J.fail_on_convert_errors) [
      | inl q ↦ inr (inr (rw (p, q, write_item) refl))
      | inr q ↦ elim (Bool-cases (J.err_write (suc w.i))) [
        | inl t ↦ inl (p, rw (p, q, t, write_item) refl)
        | inr t ↦ inr (inr (rw (p, q, t, write_item) refl))
      ]
    ]
    | inr p ↦ elim (Bool-cases (J.write x.message)) [
      | inl q ↦ inr (inl (p, rw (p, q, write_item) refl))
      | inr q ↦ inr (inr (rw (p, q, write_item) refl))
    ]
  ]

  pub write_item-i : (x : ConvertItem M) (w : Writer M) → (write_item J x w).i ≡ suc w.i
  write_item-i x w = elim (write_item_cases x w) [
    | inl (p, e) ↦ ap (λ v. v.i) e
    | inr (inl (p, e)) ↦ ap (λ v. v.i) e
    | inr (inr e) ↦ ap (λ v. v.i) e
  ]

  abbrev pub IsClosingAt : Converting M → Writer M → Type 0
  IsClosingAt c v = IsClosing J v.status v.closed_chans c

  pub write_item-closing :
      (x : ConvertItem M) (w : Writer M) (c : Converting M)
      → w.status ≡ Status.running
      → w.closed_chans ≡ 0
      → IsClosingAt c (write_item J x w)
  write_item-closing x w c r z =
      let open_yet : IsClosing J w.status w.closed_chans c =
        subst (λ st. IsClosing J st w.closed_chans c) (sym r) (inl z) in
      elim (write_item_cases x w) [
        | inl (p, e) ↦ subst (IsClosingAt c) (sym e) open_yet
        | inr (inl (p, e)) ↦ subst (IsClosingAt c) (sym e) open_yet
        | inr (inr e) ↦ subst (IsClosingAt c) (sym e) (inl z)
      ]

  abbrev pub IsLoggedAt : Writer M → Type 0
  IsLoggedAt v = IsLogged J v.status v.i v.written v.errors

  pub write_item-logged :
      (x : ConvertItem M) (w : Writer M)
      → x ≡ converted J (J.message w.i)
      → w.status ≡ Status.running
      → w.written ≡ writes J w.i
      → w.errors ≡ failures J w.i
      → IsLoggedAt (write_item J x w)
  unfolding writes failures
  write_item-logged x w same r a b = elim (write_item_cases x w) [
    | inl (p, e) ↦
        let q : (converted J (J.message w.i)).convert_err ≡ true =
          ap (λ y. y.convert_err) (sym same) ∙ p in
        subst IsLoggedAt (sym e) (
          subst (λ st. IsLogged J st (suc w.i) w.written (w.errors ++ suc w.i ∷ [])) (sym r)
            (rw q (a ∙ sym (append-nil (writes J w.i)), ap (λ l. l ++ suc w.i ∷ []) b)))
    | inr (inl (p, e)) ↦
        let q : (converted J (J.message w.i)).convert_err ≡ false =
          ap (λ y. y.convert_err) (sym same) ∙ p in
        subst IsLoggedAt (sym e) (
          subst (λ st. IsLogged J st (suc w.i) (w.written ++ x.message ∷ []) w.errors) (sym r)
            (rw q (ap₂ (λ l y. l ++ y.message ∷ []) a same, b ∙ sym (append-nil (failures J w.i)))))
    | inr (inr e) ↦ subst IsLoggedAt (sym e) (w.i, refl, a, b)
  ]
