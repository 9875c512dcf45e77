-- ===== src/Stat/Reports/Zeros.antt =====
-- Reports of nothing but zeros, which `reportMicMsg` of StatServer/StatImp.cpp skips.
use tars_framework.Base.{
  ℕ, Bool, true, false, ◌≡◌, refl, List, [], ◌∷◌, String, string_key, if◌then◌else◌, Bool-cases,
  inl, inr, arith, ◌||◌, not,
}
use tars_framework.Base.Int.{pos, eqb_ℤ}
use tars_framework.Stat.Hash.{StatMicMsgHead, StatMicMsgBody, HashTable, Format}
use tars_framework.Stat.Reports.{StatServer, Outside, is_zero, report_one, report_mic_msg}

-- The reports that count something.
abbrev pub counting :
    List (StatMicMsgHead × StatMicMsgBody) → List (StatMicMsgHead × StatMicMsgBody)
counting [] = []
counting ((head, body) ∷ reports) =
    if not (eqb_ℤ body.count (pos 0))
      || not (eqb_ℤ body.timeout_count (pos 0))
      || not (eqb_ℤ body.exec_count (pos 0))
    then (head, body) ∷ counting reports
    else counting reports

report_one_zero :
    (T : HashTable (List ℕ)) (o : Outside) (F : Format) (thread now : ℕ) (from_client : Bool)
    (host : String) (head : StatMicMsgHead) (body : StatMicMsgBody) (st : StatServer T)
    → is_zero body ≡ true
    → report_one T o F thread now from_client host head body st ≡ (pos 0, st)
unfolding report_one
report_one_zero T o F thread now from_client host head body st z = rw (report_one, z) refl

zero_not_counting :
    (head : StatMicMsgHead) (body : StatMicMsgBody) (rs : List (StatMicMsgHead × StatMicMsgBody))
    → is_zero body ≡ true
    → counting ((head, body) ∷ rs) ≡ counting rs
unfolding is_zero
zero_not_counting head body rs z = ground arith

counting_next :
    (head : StatMicMsgHead) (body : StatMicMsgBody) (rs : List (StatMicMsgHead × StatMicMsgBody))
    → is_zero body ≡ false
    → counting ((head, body) ∷ rs) ≡ (head, body) ∷ counting rs
unfolding is_zero
counting_next head body rs z = ground arith

pub report_mic_msg-counting :
    (T : HashTable (List ℕ)) (o : Outside) (F : Format) (thread now : ℕ) (from_client : Bool)
    (host : String) (reports : List (StatMicMsgHead × StatMicMsgBody)) (st : StatServer T)
    → report_mic_msg T o F thread now from_client host reports st
      ≡ report_mic_msg T o F thread now from_client host (counting reports) st
unfolding report_mic_msg
report_mic_msg-counting T o F thread now from_client host [] st = refl
report_mic_msg-counting T o F thread now from_client host ((head, body) ∷ reports) st =
    let rest = report_mic_msg-counting T o F thread now from_client host reports in
    elim (Bool-cases (is_zero body)) [
      | inl z ↦
          rw
            (
              zero_not_counting head body reports z,
              report_one_zero T o F thread now from_client host head body st z,
            )
            (rest st)
      | inr z ↦
          rw (counting_next head body reports z)
            (rest (report_one T o F thread now from_client host head body st).1)
    ]
