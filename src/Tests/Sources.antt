-- ===== src/Tests/Sources.antt =====
-- A buffer with four places for what is put back, on a reader that gives one byte at a time.
use nanonet.Common.{
  ℕ, zero, suc, ◌≡◌, ◌≤◌, refl, sym, arith, Option, none, some, [], ◌∷◌, ◌++◌, append-nil, Bytes,
  length, codes,
}
use nanonet.StreamBuf.Source.{Reader, Reads, InBuffer, istreambuf, sungetc, sgetn}
use nanonet.StreamBuf.Source.InOrder.{GetResult, sgetn-GetResult}

give_one : Bytes → Bytes → ℕ → (Bytes × Bytes) × Option Bytes
give_one given left zero = ((given, left), some [])
give_one given [] (suc n) = ((given, []), some [])
give_one given (c ∷ left) (suc n) = ((given ++ c ∷ [], left), some (c ∷ []))

abbrev one_by_one : Reader
one_by_one = record { State = Bytes × Bytes; read = λ s n. give_one s.0 s.1 n; given = λ s. s.0 }

give_one_lem :
    (given left : Bytes) (n : ℕ) (bytes : Bytes)
    → (give_one given left n).1 ≡ some bytes
    → (length bytes ≤ n) × ((give_one given left n).0.0 ≡ given ++ bytes)
unfolding give_one
give_one_lem given left zero bytes e =
    let none_given : [] ≡ bytes = cc e in rw (sym none_given) (omega arith, sym (append-nil given))
give_one_lem given [] (suc n) bytes e =
    let none_given : [] ≡ bytes = cc e in rw (sym none_given) (omega arith, sym (append-nil given))
give_one_lem given (c ∷ left) (suc n) bytes e =
    let one_given : c ∷ [] ≡ bytes = cc e in rw (sym one_given) (omega arith, refl)

give_one_some :
    (given left : Bytes) (n : ℕ)
    → (give_one given left n).1 ≡ none
    → (give_one given left n).0.0 ≡ given
unfolding give_one
give_one_some given left zero e = absurd (cc e)
give_one_some given [] (suc n) e = absurd (cc e)
give_one_some given (c ∷ left) (suc n) e = absurd (cc e)

one_by_one-Reads : Reads one_by_one
one_by_one-Reads = record {
  gives = λ s n bytes e. give_one_lem s.0 s.1 n bytes e;
  fails = λ s n e. give_one_some s.0 s.1 n e;
}

abbrev fresh : InBuffer one_by_one
fresh = record {
  rw = ([], codes "ab");
  size_pb = 4;
  memory = λ i. 0;
  size = 14;
  eback = 4;
  gptr = 4;
  egptr = 4;
}

sgetn-GetResult_example : GetResult 3 [] (sgetn 3 fresh)
sgetn-GetResult_example =
    sgetn-GetResult one_by_one-Reads ([], codes "ab") 10 4 3 fresh refl (unfold istreambuf in refl)

two_read : (sgetn 2 fresh).1 ≡ codes "ab"
unfolding sgetn give_one
two_read = refl

-- Two steps back give `b` and `a`; but behind the end of the input they give `b` twice.
put_back : (sungetc (sungetc (sgetn 2 fresh).0).0).1 ≡ some b'a'
unfolding sgetn sungetc give_one
put_back = refl

put_back_at_end : (sungetc (sungetc (sgetn 3 fresh).0).0).1 ≡ some b'b'
unfolding sgetn sungetc give_one
put_back_at_end = refl
