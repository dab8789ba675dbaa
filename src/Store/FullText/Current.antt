-- ===== src/Store/FullText/Current.antt =====
-- The full-text index is used only while it holds the events of the database.
use striem.Common.{
  ◌≡◌, refl, sym, ◌∙◌, Bool, true, false, not, ◌&&◌, ◌||◌, List, [], Option, none, some, is_some,
  arith,
}
use striem.Common.Text.{Text}
use striem.Store.Defs.{World, Db, Memory, Engine, all_events}
use striem.Store.Rules.{
  Outcome, Pred, Triple, Triple-bind, Triple-execute, Triple-execute_if, Triple-query,
  Triple-weaken, Triple-pure, Triple-modify, Triple-recall, Triple-if, Triple-transaction,
}
use striem.Store.FullText.{
  drop_full_text_index, fill_full_text, rebuild_full_text, sync_with, sync_full_text_index,
}

abbrev pub IsFresh : Option (List Text) → List Text → Type 0
IsFresh none events = Unit {0}
IsFresh (some filled) events = filled ≡ events

-- The index, if there is one, holds the events, and is ready only if there is one.
abbrev pub IsSound : Pred
IsSound d m =
    IsFresh d.full_text (all_events d.datasets)
    × (m.full_text_ready ≡ true → is_some d.full_text ≡ true)

-- There is no index.
abbrev pub IsDropped : Pred
IsDropped d m = (d.full_text ≡ none) × (m.full_text_ready ≡ false)

-- The index is there and ready exactly if it is configured.
abbrev pub IsSynced : Pred
IsSynced d m =
    IsFresh d.full_text (all_events d.datasets)
    × (is_some d.full_text ≡ m.full_text_index)
    × (m.full_text_ready ≡ m.full_text_index)

pub IsSound-of_Dropped : (d : Db) (m : Memory) → IsDropped d m → IsSound d m
IsSound-of_Dropped d m h = ground (arith, h)

pub IsSound-of_Synced : (d : Db) (m : Memory) → IsSynced d m → IsSound d m
IsSound-of_Synced d m h = (h.0, ground (arith, h))

-- What is true of the rest of the database and of the memory.
pub record IsFrame (F : Pred) : Type 0 where
  pub keeps :
      (d : Db) (m : Memory) (full_text : Option (List Text)) (ready dirty : Bool)
      → F d m
      → F
          (record d { full_text = full_text })
          (record m { full_text_ready = ready; full_text_dirty = dirty })

abbrev pub Framed : Pred → Pred → Pred
Framed F P d m = F d m × P d m

module _ (F : Pred) (frame : IsFrame F) (e : Engine) where
  pub drop_lem :
      Triple
        (Framed F IsSound)
        (drop_full_text_index e)
        (λ _. Framed F IsDropped)
        (Framed F IsSound)
  unfolding drop_full_text_index
  drop_lem =
      Triple-bind {Q = λ _. Framed F (λ d m. d.full_text ≡ none)}
        (Triple-execute e _
          (λ d m p. (frame.keeps d m none m.full_text_ready m.full_text_dirty p.0, refl))
          (λ d m p. p))
        (λ _.
          Triple-modify _
            (λ d m p. (frame.keeps d m d.full_text false m.full_text_dirty p.0, (p.1, refl))))

  fill_lem :
      (rebuild : Bool) (before : Db) (kept : Memory)
      → Framed F IsSound before kept
      → Triple
          (λ d m. (d ≡ before) × (m ≡ kept))
          (fill_full_text e rebuild)
          (λ _ d m. Framed F (λ d m. d.full_text ≡ some (all_events d.datasets)) d m × (m ≡ kept))
          (λ d m. m ≡ kept)
  unfolding fill_full_text
  fill_lem rebuild before kept p =
      Triple-bind {Q = λ _. Mid}
        (Triple-if rebuild
          (λ _. Triple-execute e _ (λ d m h. change d m none (start d m h)) (λ d m h. h.1))
          (λ _. Triple-pure tt start))
        (λ _.
          Triple-bind {Q = λ _. Mid}
            (Triple-execute_if e _ _ (λ d m h. change d m (some []) h) (λ d m h. h.1))
            (λ _.
              Triple-execute e _
                (λ d m h. (((change d m (some (all_events d.datasets)) h).0, refl), h.1))
                (λ d m h. h.1)))
    where
      Mid : Pred
      Mid d m = F d m × (m ≡ kept)

      start : (d : Db) (m : Memory) → (d ≡ before) × (m ≡ kept) → Mid d m
      start d m h = (rw (h.0, h.1) p.0, h.1)

      change :
          (d : Db) (m : Memory) (full_text : Option (List Text))
          → Mid d m
          → Mid (record d { full_text = full_text }) m
      change d m full_text h =
          (frame.keeps d m full_text m.full_text_ready m.full_text_dirty h.0, h.1)

IsSynced-of :
    (d : Db) (m : Memory)
    → m.full_text_index ≡ true
    → d.full_text ≡ some (all_events d.datasets)
    → IsSynced d (record m { full_text_ready = true; full_text_dirty = false })
IsSynced-of d m i h = (rw h refl, rw (h, i) refl, sym i)

dropped-IsSynced : (d : Db) (m : Memory) → m.full_text_index ≡ false → IsDropped d m → IsSynced d m
dropped-IsSynced d m off h = (rw h.0 tt, rw (h.0, off) refl, h.1 ∙ sym off)

IsConfigured : Bool → Pred
IsConfigured b d m = m.full_text_index ≡ b

IsFrame-configured : (F : Pred) (b : Bool) → IsFrame F → IsFrame (Framed F (IsConfigured b))
unfolding IsConfigured
IsFrame-configured F b frame = record {
  keeps = λ d m full_text ready dirty h. (frame.keeps d m full_text ready dirty h.0, h.1);
}

module _ (F : Pred) (frame : IsFrame F) (e : Engine) where
  abbrev Ready : Pred
  Ready = Framed F (IsConfigured true)

  rebuild_lem :
      (rebuild : Bool)
      → Triple
          (Framed Ready IsSound)
          (rebuild_full_text e rebuild)
          (λ _. Framed F IsSynced)
          (Framed F IsSound)
  unfolding rebuild_full_text IsConfigured
  rebuild_lem rebuild =
      Triple-bind
        {Q = λ _ d m. Framed Ready (λ d m. d.full_text ≡ some (all_events d.datasets)) d m}
        (Triple-transaction e (fill_lem Ready (IsFrame-configured F true frame) e rebuild)
          (λ d m h. (h.0.0, h.1)))
        (λ _.
          Triple-modify _
            (λ d m h. (frame.keeps d m d.full_text true false h.0.0, IsSynced-of d m h.0.1 h.1)))

  sync_with_lem :
      (rebuild ready dirty : Bool)
      → Triple
          (Framed Ready (λ d m. IsSound d m × (m.full_text_ready ≡ ready)))
          (sync_with e rebuild ready dirty)
          (λ _. Framed F IsSynced)
          (Framed F IsSound)
  unfolding sync_with IsConfigured
  sync_with_lem rebuild ready dirty =
      Triple-if (not rebuild && ready)
        (λ go. Triple-pure tt (λ d m h. (h.0.0, still_ready d m (both go) h)))
        (λ _.
          Triple-bind
            {Q = λ exists d m.
              Framed Ready (λ d m. IsSound d m × (exists ≡ true → is_some d.full_text ≡ true)) d m}
            (Triple-if (rebuild || dirty)
              (λ _. Triple-pure false (λ d m h. (h.0, (h.1.0, λ no. cc no))))
              (λ _.
                Triple-query e _ (λ d m h. (h.0, (h.1.0, λ some. some))) (λ d m h. (h.0.0, h.1.0))))
            (λ exists.
              Triple-if exists
                (λ there. Triple-modify _ (λ d m h. (
                  frame.keeps d m d.full_text true m.full_text_dirty h.0.0,
                  (h.1.0.0, h.1.1 there ∙ sym h.0.1, sym h.0.1),
                )))
                (λ _.
                  Triple-weaken (rebuild_lem (rebuild || dirty)) (λ d m h. (h.0, h.1.0))
                    (λ _ d m h. h) (λ d m h. h))))
    where
      both : not rebuild && ready ≡ true → ready ≡ true
      both go = ground (arith, go)

      still_ready :
          (d : Db) (m : Memory)
          → ready ≡ true
          → Framed Ready (λ d m. IsSound d m × (m.full_text_ready ≡ ready)) d m
          → IsSynced d m
      still_ready d m go h = (h.1.0.0, h.1.0.1 (h.1.1 ∙ go) ∙ sym h.0.1, h.1.1 ∙ go ∙ sym h.0.1)

  -- Synchronising leaves an index that holds the events exactly if one is configured. If it fails,
  -- an index that is there still holds them.
  pub sync_lem :
      (rebuild : Bool)
      → Triple
          (Framed F IsSound)
          (sync_full_text_index e rebuild)
          (λ _. Framed F IsSynced)
          (Framed F IsSound)
  unfolding sync_full_text_index IsConfigured
  sync_lem rebuild =
      Triple-bind {Q = λ b. Framed (Framed F (IsConfigured b)) IsSound}
        (Triple-recall _ (λ d m h. ((h.0, refl), h.1)))
        (λ b.
          Triple-if b
            (λ on.
              Triple-bind
                {Q = λ ready. Framed Ready (λ d m. IsSound d m × (m.full_text_ready ≡ ready))}
                (Triple-recall _ (λ d m h. ((h.0.0, h.0.1 ∙ on), (h.1, refl))))
                (λ ready.
                  Triple-bind
                    {Q = λ _. Framed Ready (λ d m. IsSound d m × (m.full_text_ready ≡ ready))}
                    (Triple-recall (λ m. m.full_text_dirty) (λ d m h. h))
                    (λ dirty. sync_with_lem rebuild ready dirty)))
            (λ off.
              Triple-weaken (drop_lem (Framed F (IsConfigured b)) (IsFrame-configured F b frame) e)
                (λ d m h. h) (λ _ d m h. (h.0.0, dropped-IsSynced d m (h.0.1 ∙ off) h.1))
                (λ d m h. (h.0.0, h.1))))

-- The database but for the index.
abbrev pub Besides : World → Pred
Besides w d m = Path Db (record d { full_text = none }) (record w.db { full_text = none })

-- From a state in which an index that is there holds the events, and is ready only if it is there,
-- synchronising succeeds with an index that holds the events and is ready exactly if one is
-- configured, or fails and keeps such a state; neither changes the rest of the database.
pub sync_full_text_index-IsSynced :
    (e : Engine) (rebuild : Bool) (w : World)
    → IsSound w.db w.memory
    → Outcome
        (λ _. Framed (Besides w) IsSynced)
        (Framed (Besides w) IsSound)
        (sync_full_text_index e rebuild w)
sync_full_text_index-IsSynced e rebuild w sound =
    (sync_lem (Besides w) (record { keeps = λ d m f r t h. h }) e rebuild).holds w (refl, sound)
