-- ===== src/Rpc/TradeReport/Laws.antt =====
-- Reading and writing a TradeReport.
use apache_thrift_benchmarki.Prelude.{ℕ, ◌<◌, true, List, [], if◌then◌else◌}
use apache_thrift_benchmarki.Prelude.Int.{ℤ, pos, eq_ℤ}
use apache_thrift_benchmarki.Format.{codes}
use apache_thrift_benchmarki.Rpc.Wire.{
  ◌>>◌, returned, encode, Protocol, Token, Val, i32_val, double_val, text_val, struct_val, Fields,
  no_field, field,
}
use apache_thrift_benchmarki.Rpc.Wire.Ends.{Ends, Carries, chain}
use apache_thrift_benchmarki.Rpc.Call.Messages.{writing_ends}
use apache_thrift_benchmarki.Rpc.Struct.Fields
use apache_thrift_benchmarki.Rpc.Struct.Fields.{
  Takes, Puts, on_i32, on_text, on_double, absorb, Every, case_Takes, skip_field-Takes, member_i32,
  member_text, member_double, read_struct-absorb, write_i32-Puts, write_text-Puts,
  write_double-Puts, write_field-last, write_field-more, write_struct-Puts,
}
use apache_thrift_benchmarki.Rpc.Results.Laws.{every_any}
use apache_thrift_benchmarki.Rpc.TradeReport.{TradeReport, report_switch, read_report, write_report}

abbrev pub report_after : {D : Type 0} → TradeReport D → ℤ → Val D → TradeReport D
report_after this fid v =
    if eq_ℤ fid (pos 1)
    then on_text v (λ symbol. record this { symbol = symbol; isset_symbol = true }) this
    else if eq_ℤ fid (pos 2)
    then on_double v (λ price. record this { price = price; isset_price = true }) this
    else if eq_ℤ fid (pos 3)
    then on_i32 v (λ size. record this { size = size; isset_size = true }) this
    else if eq_ℤ fid (pos 4)
    then on_i32 v (λ seq_num. record this { seq_num = seq_num; isset_seq_num = true }) this
    else this

abbrev pub report_fields : {D : Type 0} → TradeReport D → Fields D
report_fields this = field (pos 1) (text_val this.symbol) (
    field (pos 2) (double_val this.price)
      (field (pos 3) (i32_val this.size) (field (pos 4) (i32_val this.seq_num) no_field)))

-- The copy that reading makes.
abbrev pub received : {D : Type 0} → TradeReport D → TradeReport D
received report = record report {
  isset_symbol = true;
  isset_price = true;
  isset_size = true;
  isset_seq_num = true;
}

module _ {W D : Type 0} {prot : Protocol W D} {H : List (Token D) → W → Type 0}
    (carries : Carries prot H) where
  -- A trade report is read from any sequence of fields, in any order, with fuel for one round more
  -- than there are fields: each of its four members takes the last value of its own number and
  -- type, and keeps what it had where there is none; every other field is passed over and nothing
  -- behind the report is read.
  pub read_report-absorb :
      (fuel : ℕ) (fs : Fields D) (this : TradeReport D)
      → Fields.size fs < fuel
      → Takes H (struct_val fs) (read_report prot fuel this) (absorb report_after this fs)
  unfolding read_report
  read_report-absorb fuel fs this h =
      read_struct-absorb carries report_after (report_switch prot)
        (λ this fid v any. case_Takes v (eq_ℤ fid (pos 1)) (member_text carries v _ this) (
          case_Takes v (eq_ℤ fid (pos 2)) (member_double carries v _ this) (
            case_Takes v (eq_ℤ fid (pos 3)) (member_i32 carries v _ this) (
              case_Takes v (eq_ℤ fid (pos 4)) (member_i32 carries v _ this)
                (skip_field-Takes carries v this)))))
        fuel fs this (every_any fs) h

  pub write_report-Puts :
      (this : TradeReport D) → Puts H (struct_val (report_fields this)) (write_report prot this)
  unfolding write_report
  write_report-Puts this = write_struct-Puts carries (codes "TradeReport") (report_fields this) (
      write_field-more carries (codes "symbol") (pos 1) (text_val this.symbol) _
        (write_text-Puts carries this.symbol)
        (write_field-more carries (codes "price") (pos 2) (double_val this.price) _
          (write_double-Puts carries this.price)
          (write_field-more carries (codes "size") (pos 3) (i32_val this.size) _
            (write_i32-Puts carries this.size)
            (write_field-last carries (codes "seq_num") (pos 4) (i32_val this.seq_num)
              (write_i32-Puts carries this.seq_num)))))

  -- A trade report that is written is read back with the same members, each marked as set, whatever
  -- the report read into held.
  pub report_returns :
      (fuel : ℕ) (report this : TradeReport D)
      → 4 < fuel
      → Ends
          (H [])
          (write_report prot report >> read_report prot fuel this)
          (returned (received report))
          (H [])
  report_returns fuel report this h =
      chain _ (writing_ends (encode (struct_val (report_fields report))) (write_report-Puts report))
        (read_report-absorb fuel (report_fields report) this h [])
