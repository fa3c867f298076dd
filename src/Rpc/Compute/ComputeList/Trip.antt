-- ===== src/Rpc/Compute/ComputeList/Trip.antt =====
-- The argument of `compute_list` over the wire, and a call of it.
use apache_thrift_benchmarki.Prelude.{ℕ, ◌<◌, ◌^◌, ◌≡◌, refl, true, List, [], ◌∷◌, length}
use apache_thrift_benchmarki.Prelude.Int.{ℤ, pos}
use apache_thrift_benchmarki.Format.{Text, codes, same_text}
use apache_thrift_benchmarki.Rpc.Wire.{
  M, ◌>>◌, returned, Protocol, double, t_list, t_double, Token, Val, double_val, list_val,
  struct_val, Fields, no_field, field, encode,
}
use apache_thrift_benchmarki.Rpc.Wire.Ends.{Ends, Carries, chain, return_ends}
use apache_thrift_benchmarki.Rpc.Struct.{if_type, read_list, write_list}
use apache_thrift_benchmarki.Rpc.Struct.Fields.{
  Takes, Puts, read_struct-absorb, write_double-Puts, write_field-last, write_struct-Puts,
}
use apache_thrift_benchmarki.Rpc.Struct.Lists.{Each, elements_of, read_list-Takes, write_list-Puts}
use apache_thrift_benchmarki.Rpc.Call.Messages.{writing_ends}
use apache_thrift_benchmarki.Rpc.Results.Calls.{text_call_answers}
use apache_thrift_benchmarki.Rpc.Call.{find}
use apache_thrift_benchmarki.Rpc.Call.Processing.{Connected, no_handler, exchange}
use apache_thrift_benchmarki.Rpc.Compute.{dispatch_call}
use apache_thrift_benchmarki.Rpc.Compute.ComputeList.{
  Args, empty_args, args_switch, read_args, write_pargs, read_presult, write_result,
  send_compute_list, recv_compute_list, process_compute_list,
}

module _ {D : Type 0} where
  abbrev pub row_val : List D → Val D
  row_val row = list_val t_double (elements_of double_val row)

  abbrev pub plane_val : List (List D) → Val D
  plane_val plane = list_val t_list (elements_of row_val plane)

  abbrev pub planes_val : List (List (List D)) → Val D
  planes_val planes = list_val t_list (elements_of plane_val planes)

  abbrev pub args_fields : List (List (List D)) → Fields D
  args_fields values = field (pos 1) (planes_val values) no_field

  -- Every length fits in the 32 bits that it is written in.
  abbrev pub RowFits : List D → Type 0
  RowFits row = length row < 2 ^ 32

  abbrev pub PlaneFits : List (List D) → Type 0
  PlaneFits plane = (length plane < 2 ^ 32) × Each RowFits plane

  abbrev pub Fits : List (List (List D)) → Type 0
  Fits planes = (length planes < 2 ^ 32) × Each PlaneFits planes

module _ {W D : Type 0} {prot : Protocol W D} {H : List (Token D) → W → Type 0}
    (carries : Carries prot H) where
  open carries use {reads}

  read_double-Takes : (x : D) → Takes H (double_val x) (prot.read double) x
  unfolding encode
  read_double-Takes x ts = reads double x ts

  read_planes-Takes :
      (planes : List (List (List D)))
      → Takes H
          (planes_val planes)
          (read_list prot (read_list prot (read_list prot (prot.read double))))
          planes
  read_planes-Takes planes =
      read_list-Takes carries plane_val t_list
        (read_list-Takes carries row_val t_list
          (read_list-Takes carries double_val t_double read_double-Takes))
        planes

  write_row-Puts :
      (row : List D)
      → RowFits row
      → Puts H (row_val row) (write_list prot t_double (prot.write double []) row)
  write_row-Puts row fits =
      write_list-Puts carries double_val {Good = λ _. Unit {0}} t_double
        (λ x good. write_double-Puts carries x) row fits (any row)
    where
      any : (xs : List D) → Each (λ _. Unit {0}) xs
      any [] = tt
      any (x ∷ xs) = (tt, any xs)

  pub write_pargs-Puts :
      (values : List (List (List D)))
      → Fits values
      → Puts H (struct_val (args_fields values)) (write_pargs prot values)
  unfolding write_pargs
  write_pargs-Puts values fits =
      write_struct-Puts carries (codes "Compute_compute_list_pargs") (args_fields values) (
        write_field-last carries (codes "values") (pos 1) (planes_val values) (
          write_list-Puts carries plane_val t_list
            (λ plane plane_fits.
              write_list-Puts carries row_val t_list write_row-Puts plane plane_fits.0 plane_fits.1)
            values fits.0 fits.1))

  -- The field is the list of planes.
  pub read_args-Takes :
      (fuel : ℕ) (values : List (List (List D))) (this : Args D)
      → 1 < fuel
      → Takes H
          (struct_val (args_fields values))
          (read_args prot fuel this)
          (record { values = values; isset_values = true })
  unfolding read_args args_switch if_type
  read_args-Takes fuel values this h =
      read_struct-absorb carries {Good = λ fid v. (fid ≡ pos 1) × (v ≡ planes_val values)}
        (λ this fid v. record { values = values; isset_values = true }) (args_switch prot)
        (λ this fid v good.
          rw good.0 (rw good.1 (λ ts. chain _ (read_planes-Takes values ts) (return_ends _))))
        fuel (args_fields values) this ((refl, refl), tt) h

  -- The planes, rows and numbers that the client of compute_list writes are what the processor
  -- reads, nested lists of any lengths below 2 ^ 32, empty ones included; nothing is left over.
  pub values_return :
      (fuel : ℕ) (values : List (List (List D))) (this : Args D)
      → 1 < fuel
      → Fits values
      → Ends
          (H [])
          (write_pargs prot values >> read_args prot fuel this)
          (returned (record { values = values; isset_values = true }))
          (H [])
  values_return fuel values this h fits =
      chain _
        (writing_ends (encode (struct_val (args_fields values))) (write_pargs-Puts values fits))
        (read_args-Takes fuel values this h [])

module _ {S W D : Type 0} {request response : Protocol W D}
    {Holds : S → List (Token D) → List (Token D) → W → Type 0}
    (connected : Connected request response Holds) (fuel : ℕ) (enough : 1 < fuel)
    (computed : ℤ → ℤ → M W (Unit {0})) (inferred : List (List (List D)) → M W Text) {s s' : S}
    (values : List (List (List D))) (fits : Fits values) where
  open connected use {requests}

  pub inference_arrives :
      (answer : Text)
      → Ends (Holds s [] []) (inferred values) (returned answer) (Holds s' [] [])
      → Ends
          (Holds s [] [])
          (exchange request
            (send_compute_list request values)
            (dispatch_call request response no_handler fuel computed inferred)
            (recv_compute_list response fuel))
          (returned answer)
          (Holds s' [] [])
  unfolding send_compute_list recv_compute_list dispatch_call process_compute_list find same_text
      read_presult write_result
  inference_arrives answer handled =
      text_call_answers connected (codes "compute_list") _ _ _ fuel enough
        (λ args. inferred args.values) (encode (struct_val (args_fields values))) refl
        (read_args-Takes (requests s []) fuel values empty_args enough)
        (write_pargs-Puts (requests s []) values fits) answer handled
