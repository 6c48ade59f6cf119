-- ===== src/Store/Queue/Recovery.antt =====
-- What `m2_recover_interrupted` leaves behind (crates/msgriver-store/src/lib.rs).
use msgriver.Common.{ℕ, ◌≡◌, ◌+◌, refl, ◌∙◌, sym, ap, List, [], ◌∷◌, arith}
use msgriver.Common.Int.{ℤ}
use msgriver.Store.Schema.{Message, Db, Engine, ok, count_where, update_where, is_sending}
use msgriver.Store.Queue.{m2_recover_interrupted, doubted, interrupted, is_ambiguous}
use msgriver.Store.Inversion.{autocommit-ok, update-ok}

abbrev pub sending_count : List Message → ℕ
sending_count = count_where (λ m. is_sending m.state)

abbrev pub ambiguous_count : List Message → ℕ
ambiguous_count = count_where (λ m. is_ambiguous m.state)

doubted-counts :
    (now : ℤ) (ms : List Message)
    → (sending_count (update_where (λ m. is_sending m.state) (doubted interrupted now) ms) ≡ 0)
      × (ambiguous_count (update_where (λ m. is_sending m.state) (doubted interrupted now) ms)
          ≡ ambiguous_count ms + sending_count ms)
unfolding count_where update_where
doubted-counts now [] = (refl, refl)
doubted-counts now (m ∷ ms) = let (a, b) = doubted-counts now ms in ground arith

-- If recovery succeeds, it returns the number of messages that were sending; none is sending
-- afterwards, and just as many more are ambiguous.
pub m2_recover_interrupted-counts :
    (e : Engine) (now : ℤ) (db db' : Db) (n : ℕ)
    → m2_recover_interrupted e now db ≡ (ok n, db')
    → (n ≡ sending_count db.messages)
      × (sending_count db'.messages ≡ 0)
      × (ambiguous_count db'.messages ≡ ambiguous_count db.messages + n)
unfolding m2_recover_interrupted
m2_recover_interrupted-counts e now db db' n h =
    let (count, after, _) =
      update-ok e (λ m. is_sending m.state) (doubted interrupted now) db db' n
        (autocommit-ok _ db db' n h) in
    let (none_left, doubts) = doubted-counts now db.messages in
    (
      count,
      ap (λ (d : Db). sending_count d.messages) after ∙ none_left,
      ap (λ (d : Db). ambiguous_count d.messages) after
          ∙ (doubts ∙ ap (λ k. ambiguous_count db.messages + k) (sym count)),
    )
