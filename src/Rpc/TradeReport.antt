-- ===== src/Rpc/TradeReport.antt =====
-- dump/nonblocking/gen-cpp/trade_report_types.cpp: the struct TradeReport.
pub mod Laws
use Prim.Native.String.{String}
use apache_thrift_benchmarki.Prelude.{
  ℕ, Bool, true, false, List, [], ◌∷◌, Option, none, some, if◌then◌else◌,
}
use apache_thrift_benchmarki.Prelude.Int.{ℤ, pos, eq_ℤ}
use apache_thrift_benchmarki.Format.{Text, codes}
use apache_thrift_benchmarki.Rpc.Wire.{
  M, ◌>>=◌, ◌>>◌, return, Protocol, Part, i32, i64, text, double, TType, t_i32, t_i64, t_string,
  t_double, t_struct, t_list, t_call, t_oneway,
}
use apache_thrift_benchmarki.Rpc.Struct.{
  skip_field, if_type, member, read_struct, write_field, write_struct, read_list, write_list,
}

pub record TradeReport (D : Type 0) : Type 0 where
  pub symbol : Text
  pub isset_symbol : Bool
  pub price : D
  pub isset_price : Bool
  pub size : ℤ
  pub isset_size : Bool
  pub seq_num : ℤ
  pub isset_seq_num : Bool

-- `zero` is 0.0.
abbrev pub empty_report : {D : Type 0} → D → TradeReport D
empty_report zero = record {
  symbol = [];
  isset_symbol = false;
  price = zero;
  isset_price = false;
  size = pos 0;
  isset_size = false;
  seq_num = pos 0;
  isset_seq_num = false;
}

module _ {W D : Type 0} (prot : Protocol W D) where
  unfoldable pub report_switch : ℤ → TType → TradeReport D → M W (TradeReport D)
  report_switch fid ftype this =
      if eq_ℤ fid (pos 1)
      then member prot t_string text
          (λ symbol. record this { symbol = symbol; isset_symbol = true }) ftype this
      else if eq_ℤ fid (pos 2)
      then member prot t_double double (λ price. record this { price = price; isset_price = true })
          ftype this
      else if eq_ℤ fid (pos 3)
      then member prot t_i32 i32 (λ size. record this { size = size; isset_size = true }) ftype this
      else if eq_ℤ fid (pos 4)
      then member prot t_i32 i32
          (λ seq_num. record this { seq_num = seq_num; isset_seq_num = true }) ftype this
      else skip_field prot ftype this

  unfoldable pub read_report : ℕ → TradeReport D → M W (TradeReport D)
  unfolding report_switch
  read_report fuel this = read_struct prot report_switch fuel this

  unfoldable pub write_report : TradeReport D → M W (Unit {0})
  write_report this = write_struct prot (codes "TradeReport") (do
    write_field prot (codes "symbol") t_string (pos 1) (prot.write text [] this.symbol)
    write_field prot (codes "price") t_double (pos 2) (prot.write double [] this.price)
    write_field prot (codes "size") t_i32 (pos 3) (prot.write i32 [] this.size)
    write_field prot (codes "seq_num") t_i32 (pos 4) (prot.write i32 [] this.seq_num))
