-- ===== src/Deployment/Load/Contents.antt =====
-- What a run of the loader makes of the datasets in the store.
use striem.Common.{
  ℕ, ◌≡◌, refl, sym, ap, ◌∙◌, true, false, List, [], ◌∷◌, ◌++◌, arith, Option, none, some, is_some,
}
use mathlib.Core.Path.{subst}
use striem.Common.Text.{same, same_comm, has_text}
use striem.Common.Distinct.{IsDistinct}
use striem.Common.Result.{Result, ok, err}
use striem.Store.Defs.{World, StoreError, Dataset, Action}
use striem.Store.Rules.{
  Pred, Triple, Triple-bind, Triple-weaken, Triple-pure, Triple-fail, Triple-if, Outcome,
}
use striem.Store.Datasets.{without}
use striem.Ingest.Import.{import_dataset, new_row, replaced}
use striem.Ingest.Imported.{import_dataset_lem}
use striem.Deployment.Prepare.{Prepared, names_of}
use striem.Deployment.Load.{Site, unchanged, kept_or, import_one, import_all, mapping_of}
use striem.Deployment.Load.Rows.{IsPresent, ArePresent, imported-IsPresent, others-IsPresent}

abbrev pub Any : Pred
Any d m = Unit {0}

Any-outcome : {A : Type 0} (r : World × Result StoreError A) → Outcome (λ _. Any) Any r
Any-outcome (w, ok a) = tt
Any-outcome (w, err e) = tt

pub Triple-any : {A : Type 0} {P : Pred} (m : Action A) → Triple P m (λ _. Any) Any
Triple-any m = record { holds = λ w p. Any-outcome (m w) }

-- The name of each dataset of the first list is new to the second.
abbrev pub AreApart : List Prepared → List Prepared → Type 0
AreApart [] qs = Unit {0}
AreApart (k ∷ ks) qs = (has_text k.configured.name (names_of qs) ≡ false) × AreApart ks qs

AreApart-tail :
    (ks : List Prepared) (q : Prepared) (qs : List Prepared) → AreApart ks (q ∷ qs) → AreApart ks qs
unfolding has_text
AreApart-tail [] q qs h = tt
AreApart-tail (k ∷ ks) q qs h = (ground (arith, h.0), AreApart-tail ks q qs h.1)

-- What is unchanged among the datasets is there.
abbrev pub Kept : List Dataset → List Prepared → List Dataset → Type 0
Kept existing [] ds = Unit {0}
Kept existing (q ∷ qs) ds =
    (is_some (unchanged existing q) ≡ true → IsPresent ds q) × Kept existing qs ds

-- One dataset has been replaced.
abbrev Next : Site → Prepared → List Dataset → List Dataset → Type 0
Next s p before after =
    (id : ℕ) × (after
      ≡ without (λ d. same d.name p.configured.name) before
        ++ (new_row (mapping_of p) id (s.input p).records ∷ []))

Next-IsPresent :
    (s : Site) (p k : Prepared) (before after : List Dataset)
    → Next s p before after
    → same k.configured.name p.configured.name ≡ false
    → IsPresent before k
    → IsPresent after k
Next-IsPresent s p k before after n ne h =
    subst (λ ds. IsPresent ds k) (sym n.1)
      (others-IsPresent k p n.0 (s.input p).records before ne h)

Next-ArePresent :
    (s : Site) (p : Prepared) (qs ks : List Prepared) (before after : List Dataset)
    → Next s p before after
    → AreApart ks (p ∷ qs)
    → ArePresent before ks
    → ArePresent after (p ∷ ks)
unfolding has_text
Next-ArePresent s p qs [] before after n a h = (
  subst (λ ds. IsPresent ds p) (sym n.1) (imported-IsPresent p n.0 (s.input p).records before),
  tt,
)
Next-ArePresent s p qs (k ∷ ks) before after n a h =
    let rest = Next-ArePresent s p qs ks before after n a.1 h.1 in
    (rest.0, (Next-IsPresent s p k before after n (ground (arith, a.0)) h.0, rest.1))

Next-Kept :
    (s : Site) (existing : List Dataset) (p : Prepared) (qs : List Prepared)
    (before after : List Dataset)
    → Next s p before after
    → has_text p.configured.name (names_of qs) ≡ false
    → Kept existing qs before
    → Kept existing qs after
unfolding has_text
Next-Kept s existing p [] before after n new h = tt
Next-Kept s existing p (q ∷ qs) before after n new h = (
  (λ same_one.
      Next-IsPresent s p q before after n
        (ground (arith, new, same_comm q.configured.name p.configured.name)) (h.0 same_one)),
  Next-Kept s existing p qs before after n (ground (arith, new)) h.1,
)

module _ (s : Site) (existing : List Dataset) where
  import_one-Next :
      (p : Prepared) (before : List Dataset)
      → Triple
          (λ d m. d.datasets ≡ before)
          (import_one s p)
          (λ _ d m. Next s p before d.datasets)
          Any
  unfolding import_one
  import_one-Next p before =
      Triple-bind {Q = λ _ d m. d.datasets ≡ before}
        (Triple-if (s.opens p) (λ _. Triple-pure tt (λ d m h. h))
          (λ _. Triple-fail _ (λ d m h. tt)))
        (λ _. Triple-bind {Q = λ _ d m. Next s p before d.datasets} imports (λ row.
          Triple-bind {Q = λ _ d m. Next s p before d.datasets}
            (Triple-if (s.closes p) (λ _. Triple-pure tt (λ d m h. h))
              (λ _. Triple-fail _ (λ d m h. tt)))
            (λ _. Triple-pure row (λ d m h. h))))
    where
      imports :
          Triple
            (λ d m. d.datasets ≡ before)
            (import_dataset s.engine s.letters (mapping_of p) (s.input p))
            (λ _ d m. Next s p before d.datasets)
            Any
      imports =
          Triple-weaken
            (import_dataset_lem Any (record { keeps = λ d m datasets h. tt })
              (record { marks = λ d m h. tt }) s.engine s.letters (mapping_of p) (s.input p) before)
            (λ d m h. (tt, h))
            (λ row d m q. (_, q.0.1 ∙ ap (λ r. replaced (mapping_of p) before ++ (r ∷ [])) q.0.2))
            (λ d m q. tt)

  -- Those imported so far are there, and of the others those that are unchanged.
  unfoldable pub Going : List Prepared → List Prepared → Pred
  Going ks qs d m = ArePresent d.datasets ks × Kept existing qs d.datasets

  kept_or-Going :
      (ks : List Prepared) (q : Prepared) (qs : List Prepared)
      → AreApart ks (q ∷ qs)
      → has_text q.configured.name (names_of qs) ≡ false
      → (o : Option Dataset) → unchanged existing q ≡ o
      → Triple (Going ks (q ∷ qs)) (kept_or o (import_one s q)) (λ _. Going (q ∷ ks) qs) Any
  unfolding Going
  kept_or-Going ks q qs apart new none e = record {
    holds = λ w h.
        (Triple-weaken {P' = λ d m. d.datasets ≡ w.db.datasets} {Q' = λ _. Going (q ∷ ks) qs}
            (import_one-Next q w.db.datasets) (λ d m p. p)
            (λ _ d m n. (
              Next-ArePresent s q qs ks w.db.datasets d.datasets n apart h.0,
              Next-Kept s existing q qs w.db.datasets d.datasets n new h.1.1,
            ))
            (λ d m p. p)).holds
          w refl;
  }
  kept_or-Going ks q qs apart new (some row) e =
      Triple-pure row (λ d m h. ((h.1.0 (ap is_some e), h.0), h.1.1))

  pub import_all-ArePresent :
      (ks qs : List Prepared)
      → AreApart ks qs
      → IsDistinct (names_of qs)
      → Triple
          (Going ks qs)
          (import_all s existing qs)
          (λ _ d m. ArePresent d.datasets ks × ArePresent d.datasets qs)
          Any
  unfolding import_all Going
  import_all-ArePresent ks [] apart distinct = Triple-pure [] (λ d m h. h)
  import_all-ArePresent ks (q ∷ qs) apart distinct =
      Triple-bind {Q = λ _. Going (q ∷ ks) qs}
        (kept_or-Going ks q qs apart distinct.0 (unchanged existing q) refl)
        (λ row.
          Triple-bind {Q = λ _ d m. ArePresent d.datasets ks × ArePresent d.datasets (q ∷ qs)}
            (Triple-weaken
              (import_all-ArePresent (q ∷ ks) qs (distinct.0, AreApart-tail ks q qs apart)
                distinct.1)
              (λ d m h. h) (λ _ d m h. (h.0.1, (h.0.0, h.1))) (λ d m h. h))
            (λ rows. Triple-pure (row ∷ rows) (λ d m h. h)))
