-- ===== src/Report/Stale.antt =====
-- The socket that the logs go to after a connection was lost.
use ajou_etri_project.Base.{
  ℕ, zero, suc, ◌+◌, ◌≡◌, ◌≤◌, refl, ◌∙◌, false, some, [], ◌∷◌, ◌++◌, ◌==◌, pos, length, arith,
  replicate,
}
use ajou_etri_project.Node.{Node}
use ajou_etri_project.Report.{
  first_bytes, Reporter, delivered, accepted, begin_round, next_row, send_row, report_step,
}
use ajou_etri_project.Report.Rounds.{report_rows, get_elem-some}

-- Rows behind the first of a round.
rows-client :
    (k : ℕ) (n : Node) (r : Reporter)
    → 1 ≤ r.row
    → r.row + k ≤ 8
    → 8 ≤ length n.nms_t
    → (q : Reporter) × (report_rows (replicate k delivered) (n, r) ≡ some (n, q))
      × (q.client ≡ r.client)
      × (q.client_ext ≡ r.client_ext)
unfolding report_rows report_step begin_round send_row
rows-client zero n r h k t = (r, refl, refl, refl)
rows-client (suc zero) n r h k t =
    let e : (r.row == 0) ≡ false = ground arith in
    let (x, g) = get_elem-some n.nms_t r.row (omega arith) in
    let r1 : Reporter = record r {
      row = next_row r.row;
      sent = r.sent ++ (r.client, first_bytes x) ∷ [];
    } in
    (r1, rw e (rw g refl), refl, refl)
rows-client (suc (suc j)) n r h k t =
    let e : (r.row == 0) ≡ false = ground arith in
    let (x, g) = get_elem-some n.nms_t r.row (omega arith) in
    let r1 : Reporter = record r {
      row = next_row r.row;
      sent = r.sent ++ (r.client, first_bytes x) ∷ [];
    } in
    let (q, run, c, d) = rows-client (suc j) n r1 (ground arith) (ground arith) t in
    (q, rw e (rw g run), c, d)

-- Where the send of a row behind the first one of a round fails, and the management system connects
-- again, then until the round is over `NMS_Connection` is 1 and rows go to the new socket, but
-- `nms_tcp_send_client_ext`, to which logs go, is still the socket that failed.
pub reconnected-client_ext :
    (k fd : ℕ) (n : Node) (r : Reporter)
    → 1 ≤ r.row
    → r.row + 1 + k ≤ 8
    → 8 ≤ length n.nms_t
    → r.client_ext ≡ r.client
    → (m : Node) × (q : Reporter) × (report_rows (accepted fd ∷ replicate k delivered) (n, r)
        ≡ some (m, q))
      × (m.nms_connection ≡ 1)
      × (q.client ≡ pos fd)
      × (q.client_ext ≡ r.client)
unfolding report_rows report_step begin_round send_row
reconnected-client_ext zero fd n r h b t c =
    let e : (r.row == 0) ≡ false = ground arith in
    (
      record n { nms_connection = 1 },
      record r { client = pos fd; row = next_row r.row },
      rw e refl,
      refl,
      refl,
      c,
    )
reconnected-client_ext (suc k) fd n r h b t c =
    let e : (r.row == 0) ≡ false = ground arith in
    let r1 : Reporter = record r { client = pos fd; row = next_row r.row } in
    let (q, run, x, y) =
      rows-client (suc k) (record n { nms_connection = 1 }) r1 (ground arith) (ground arith) t in
    (record n { nms_connection = 1 }, q, rw e run, refl, x, y ∙ c)
