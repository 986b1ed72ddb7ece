-- ===== src/Sysbench/Fileio/Handed.antt =====
-- The requests of a sequential test in the order in which runner_thread hands them out.
use htmsql.Prelude.{
  ℕ, zero, suc, ◌+◌, ◌<◌, ◌≤◌, ◌≡◌, ◌≢◌, refl, ap, ◌∙◌, true, false, ◌&&◌, ℕ_discrete, arith, ◌⊎◌,
  List, [], ◌∷◌,
}
use htmsql.Sysbench.Fileio.{
  Settings, Counters, SbFileRequest, type_file, type_null, seq_operation, seq_request,
  fsync_request, file_get_seq_request, is_write,
}
use htmsql.Sysbench.Fileio.Sequential.{IsNext, running-def, seq_advanced-full, seq_advanced-part}
use htmsql.Sysbench.Fileio.Execute.{
  FileSystem, out_of_bounds, failed, succeeded, file_execute_request,
}

-- The requests that the loop hands out, in order, up to a failure
unfoldable pub requests : Settings → FileSystem → (fuel : ℕ) → Counters → List SbFileRequest
requests o f zero c = []
requests o f (suc n) c =
    let (d, q) = file_get_seq_request o c in
    elim q [
      | type_null ↦ []
      | type_file r ↦ r ∷ elim (file_execute_request o f d r) [
        | succeeded e ↦ requests o f n e
        | failed ↦ []
        | out_of_bounds ↦ []
      ]
    ]

-- What is left to hand out from position `p` of file `i` on, with `s` files synced: data requests that
-- follow one another through this file and all files behind it, and then an fsync of each file
-- that is not synced, where that is asked for.
pub data Covers (o : Settings) : (i p s : ℕ) → List SbFileRequest → Type 0 where
  inside :
      {i p s : ℕ} {r : SbFileRequest} {rest : List SbFileRequest}
      → i < o.num_files
      → r.file_id ≡ i
      → r.pos ≡ p
      → r.operation ≡ seq_operation o.test_mode
      → 1 ≤ r.size
      → p + r.size < o.file_size
      → Covers o i (p + r.size) s rest
      → Covers o i p s (r ∷ rest)
  to_end :
      {i p s : ℕ} {r : SbFileRequest} {rest : List SbFileRequest}
      → i < o.num_files
      → r.file_id ≡ i
      → r.pos ≡ p
      → r.operation ≡ seq_operation o.test_mode
      → 1 ≤ r.size
      → p + r.size ≡ o.file_size
      → Covers o (i + 1) 0 s rest
      → Covers o i p s (r ∷ rest)
  syncs :
      {s : ℕ} {rest : List SbFileRequest}
      → (o.file_fsync_end && is_write (seq_operation o.test_mode)) ≡ true
      → s < o.num_files
      → Covers o o.num_files 0 (s + 1) rest
      → Covers o o.num_files 0 s (fsync_request s ∷ rest)
  done :
      {s : ℕ}
      → ((o.file_fsync_end && is_write (seq_operation o.test_mode)) ≡ false) ⊎ (s ≡ o.num_files)
      → Covers o o.num_files 0 s []

pub requests-request :
    (o : Settings) (f : FileSystem) (n : ℕ) (c d : Counters) (r : SbFileRequest)
    → (file_get_seq_request o c).1 ≡ type_file r
    → file_execute_request o f (file_get_seq_request o c).0 r ≡ succeeded d
    → requests o f (suc n) c ≡ r ∷ requests o f n d
unfolding requests
requests-request o f n c d r e h = rw (requests, e, h) refl

pub move-Covers :
    {o : Settings} {i i' p p' s s' : ℕ} {l : List SbFileRequest}
    → i ≡ i'
    → p ≡ p'
    → s ≡ s'
    → Covers o i p s l
    → Covers o i' p' s' l
move-Covers a b e w = rw (a, b, e) at w

-- A data request is the next one of what is left to hand out.
pub data_request-Covers :
    {o : Settings} {c : Counters} (d : Counters)
    → c.current_file ≢ o.num_files
    → IsNext o c (seq_request o c)
    → d.current_file ≡ (file_get_seq_request o c).0.current_file
    → d.position ≡ (file_get_seq_request o c).0.position
    → d.fsynced_file ≡ c.fsynced_file
    → (l : List SbFileRequest) → Covers o d.current_file d.position d.fsynced_file l
    → Covers o c.current_file c.position c.fsynced_file (seq_request o c ∷ l)
data_request-Covers {o} {c} d h next file_of at_of same l w =
    let size = (seq_request o c).size in
    let run = running-def o c h in
    elim (ℕ_discrete (c.position + size) o.file_size) [
      | yes e ↦
          let (file, at) = seq_advanced-full o c (c.position + size) e in
          to_end next.some_file refl refl refl next.nonzero e (
            move-Covers (file_of ∙ ap (λ q. q.0.current_file) run ∙ file)
              (at_of ∙ ap (λ q. q.0.position) run ∙ at) same w)
      | no n ↦
          let (file, at) = seq_advanced-part o c (c.position + size) n in
          inside next.some_file refl refl refl next.nonzero (omega (arith, next.fits, n)) (
            move-Covers (file_of ∙ ap (λ q. q.0.current_file) run ∙ file)
              (at_of ∙ ap (λ q. q.0.position) run ∙ at) same w)
    ]
