-- ===== src/Sysbench/Oltp/Answer.antt =====
-- The requests of sb_oltp.c in all modes, `oltp_get_request`.
use htmsql.Prelude.{ℕ, ◌≡◌, refl, true, false, ◌&&◌, ltb, leb, ◌⊎◌, inl, inr, Bool-cases}
use htmsql.Sysbench.Oltp.{
  World, OltpArgs, OltpMode, mode_simple, mode_complex, mode_nontrx, mode_sp, Oltp, done,
}
use htmsql.Sysbench.Oltp.Ends.{Ends}
use htmsql.Sysbench.Oltp.Ids.{IsUsable}
use htmsql.Sysbench.Oltp.Requests.{SqlRequest, type_null, get_request_in, oltp_get_request}
use htmsql.Sysbench.Oltp.Grown.{point_select, procedure}
use htmsql.Sysbench.Oltp.Complex.{IsTransaction, get_request_complex-IsTransaction}
use htmsql.Sysbench.Oltp.Short.{
  IsShort, given, nontrx_statement, nontrx-IsShort, simple-IsShort, sp-IsShort,
}

abbrev pub IsAnswer : World → OltpArgs → Oltp → OltpMode → SqlRequest → Oltp → Type 0
IsAnswer w args s mode_simple = IsShort w args point_select (given w s) s
IsAnswer w args s mode_complex = IsTransaction w args s
IsAnswer w args s mode_nontrx = IsShort w args (nontrx_statement args.nontrx_mode) 0 s
IsAnswer w args s mode_sp = IsShort w args procedure (given w s) s

in_mode :
    (w : World) (args : OltpArgs) (mode : OltpMode) (tid : ℕ) (s : Oltp)
    → IsUsable args
    → Ends w (IsAnswer w args s mode) (λ _. ⊥) (get_request_in w args mode tid s)
unfolding get_request_in
in_mode w args mode_simple tid s u = simple-IsShort w args u s
in_mode w args mode_complex tid s u = get_request_complex-IsTransaction w args tid s u
in_mode w args mode_nontrx tid s u = nontrx-IsShort w args u s
in_mode w args mode_sp tid s u = sp-IsShort w args u s

-- Once the number of requests, where one is given, has been reached, oltp_get_request answers NULL and
-- changes nothing. Before that, with usable arguments, one of three things comes about. It makes the
-- request of its mode: a whole transaction, or one query of the mode's kind with perhaps a reconnect
-- behind it, on rows of the table alone. Or memory ran out and it answers NULL: then nothing stays
-- allocated in the modes complex and nontrx, and in the modes simple and sp the block that one of the
-- two calls of malloc gave; and the request is not counted. Or it writes through NULL, which a failing
-- call of malloc must exist for.
pub oltp_get_request-IsAnswer :
    (w : World) (args : OltpArgs) (max_requests tid : ℕ) (s : Oltp)
    → IsUsable args
    → (((ltb 0 max_requests && leb max_requests s.req_performed) ≡ true)
        × (oltp_get_request w args max_requests tid s ≡ done type_null s))
      ⊎ (((ltb 0 max_requests && leb max_requests s.req_performed) ≡ false)
          × Ends w
              (IsAnswer w args s args.test_mode)
              (λ _. ⊥)
              (oltp_get_request w args max_requests tid s))
unfolding oltp_get_request
oltp_get_request-IsAnswer w args max_requests tid s u =
    elim (Bool-cases (ltb 0 max_requests && leb max_requests s.req_performed)) [
      | inl e ↦ inl (e, rw e refl)
      | inr e ↦ inr (e, rw e (in_mode w args args.test_mode tid s u))
    ]
