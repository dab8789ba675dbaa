-- ===== src/Store/FullText/Kept.antt =====
-- The operations on the full-text index leave everything else as it is.
use striem.Common.{Option, Bool, true, false, not, ◌&&◌, ◌||◌, List, [], none, some, is_some}
use striem.Common.Text.{Text}
use striem.Store.Defs.{Db, Memory, Engine, all_events}
use striem.Store.Rules.{
  Pred, Triple, Triple-bind, Triple-execute, Triple-execute_if, Triple-query, Triple-weaken,
  Triple-pure, Triple-modify, Triple-recall, Triple-if, Triple-transaction, Staying,
}
use striem.Store.FullText.{
  drop_full_text_index, fill_full_text, rebuild_full_text, sync_with, sync_full_text_index,
}
use striem.Store.FullText.Current.{IsFrame}

module _ (F : Pred) (frame : IsFrame F) (e : Engine) where
  pub drop_full_text_index-keeps : Triple F (drop_full_text_index e) (λ _. F) F
  unfolding drop_full_text_index
  drop_full_text_index-keeps =
      Triple-bind {Q = λ _. F}
        (Triple-execute e _ (λ d m p. frame.keeps d m none m.full_text_ready m.full_text_dirty p)
          (λ d m p. p))
        (λ _. Triple-modify _ (λ d m p. frame.keeps d m d.full_text false m.full_text_dirty p))

  fill_keeps :
      (kept : Memory) (rebuild : Bool)
      → Triple (Staying F kept) (fill_full_text e rebuild) (λ _. Staying F kept) (Staying F kept)
  unfolding fill_full_text
  fill_keeps kept rebuild =
      Triple-bind {Q = λ _. Staying F kept}
        (Triple-if rebuild
          (λ _. Triple-execute e _ (λ d m p. (index d m none p.0, p.1)) (λ d m p. p))
          (λ _. Triple-pure tt (λ d m p. p)))
        (λ _.
          Triple-bind {Q = λ _. Staying F kept}
            (Triple-execute_if e _ _ (λ d m p. (index d m (some []) p.0, p.1)) (λ d m p. p))
            (λ _.
              Triple-execute e _ (λ d m p. (index d m (some (all_events d.datasets)) p.0, p.1))
                (λ d m p. p)))
    where
      index :
          (d : Db) (m : Memory) (full_text : Option (List Text))
          → F d m
          → F (record d { full_text = full_text }) m
      index d m full_text p = frame.keeps d m full_text m.full_text_ready m.full_text_dirty p

  rebuild_keeps : (rebuild : Bool) → Triple F (rebuild_full_text e rebuild) (λ _. F) F
  unfolding rebuild_full_text
  rebuild_keeps rebuild =
      Triple-bind {Q = λ _. F}
        (Triple-transaction e
          (λ before kept p.
            Triple-weaken (fill_keeps kept rebuild) (λ d m h. (rw (h.0, h.1) p, h.1)) (λ _ d m q. q)
              (λ d m q. q.1))
          (λ d m p. p))
        (λ _. Triple-modify _ (λ d m p. frame.keeps d m d.full_text true false p))

  sync_with_keeps :
      (rebuild ready dirty : Bool) → Triple F (sync_with e rebuild ready dirty) (λ _. F) F
  unfolding sync_with
  sync_with_keeps rebuild ready dirty =
      Triple-if (not rebuild && ready) (λ _. Triple-pure tt (λ d m p. p))
        (λ _.
          Triple-bind {Q = λ _. F}
            (Triple-if (rebuild || dirty) (λ _. Triple-pure false (λ d m p. p))
              (λ _. Triple-query e (λ db. is_some db.full_text) (λ d m p. p) (λ d m p. p)))
            (λ exists.
              Triple-if exists
                (λ _.
                  Triple-modify _ (λ d m p. frame.keeps d m d.full_text true m.full_text_dirty p))
                (λ _. rebuild_keeps (rebuild || dirty))))

  pub sync_full_text_index-keeps :
      (rebuild : Bool) → Triple F (sync_full_text_index e rebuild) (λ _. F) F
  unfolding sync_full_text_index
  sync_full_text_index-keeps rebuild =
      Triple-bind {Q = λ _. F} (Triple-recall (λ m. m.full_text_index) (λ d m p. p)) (λ configured.
        Triple-if configured
          (λ _.
            Triple-bind {Q = λ _. F} (Triple-recall (λ m. m.full_text_ready) (λ d m p. p)) (λ ready.
              Triple-bind {Q = λ _. F} (Triple-recall (λ m. m.full_text_dirty) (λ d m p. p))
                (λ dirty. sync_with_keeps rebuild ready dirty)))
          (λ _. drop_full_text_index-keeps))
