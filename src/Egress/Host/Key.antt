-- ===== src/Egress/Host/Key.antt =====
-- crates/egress/src/lib.rs: proofs about the wrapped data key, which is written once.
use tokumai.Base.{
  ℕ, ◌≡◌, refl, ◌∙◌, sym, ◌≢◌, Bool, true, false, Option, none, List, [], ◌∷◌, arith, take, drop,
  Option-cases, inl, inr,
}
use tokumai.Base.Result.{Result, ok, err}
use tokumai.Base.Bytes.{Bytes, of_be}
use tokumai.Enclave.State.{JournalError}
use tokumai.Egress.Host.{
  Host, Ask, Outside, answer, serve_host, serve_all, put_once, put_whole, put_snapshot, add_record,
  add_behind, add_placed, add_record_bare, known_last, is_there, ask_credentials, ask_sealed,
  ask_snapshot, ask_journal, ask_put_snapshot, ask_data_key, ask_put_data_key, ask_doors,
  ask_put_doors, ask_add_record, ask_add_record_2, ask_other,
}

add_placed-data_key :
    (number : ℕ) (given : Bytes) (last : Option ℕ) (h : Host) (r : Result JournalError Bool)
    → (add_placed number given last h r).0.data_key ≡ h.data_key
unfolding add_placed
add_placed-data_key number given last h (err e) = refl
add_placed-data_key number given last h (ok true) = refl
add_placed-data_key number given last h (ok false) = refl

add_behind-data_key :
    (number : ℕ) (given : Bytes) (h : Host) (r : Result JournalError (Option ℕ))
    → (add_behind number given h r).0.data_key ≡ h.data_key
unfolding add_behind
add_behind-data_key number given h (err e) = refl
add_behind-data_key number given h (ok last) =
    add_placed-data_key number given last h (is_there last number)

add_record-data_key : (given : Bytes) (h : Host) → (add_record given h).0.data_key ≡ h.data_key
unfolding add_record
add_record-data_key given h = ground (
  arith,
  add_behind-data_key (of_be 0 (take 8 (drop 8 given))) (drop 16 given) h
      (known_last h.last h.journal),
)

add_record_bare-data_key :
    (given : Bytes) (h : Host) → (add_record_bare given h).0.data_key ≡ h.data_key
unfolding add_record_bare
add_record_bare-data_key given h = ground arith

-- A question about the data key does not replace one that is kept.
put_once-kept :
    (given : Bytes) (b : ℕ) (bs : Bytes) (h : Host)
    → h.data_key ≡ b ∷ bs
    → (answer ask_put_data_key given
        (record { given = none; credentials = none; secrets = none })
        h).0.data_key
      ≡ b ∷ bs
unfolding answer put_once
put_once-kept [] b bs h e = e
put_once-kept (x ∷ xs) b bs h e = rw e (ground arith)

answer-data_key :
    (what : Ask) (given : Bytes) (o : Outside) (h : Host) (b : ℕ) (bs : Bytes)
    → h.data_key ≡ b ∷ bs
    → (answer what given o h).0.data_key ≡ b ∷ bs
unfolding answer put_snapshot put_whole
answer-data_key ask_credentials given o h b bs e = e
answer-data_key ask_sealed given o h b bs e = e
answer-data_key ask_snapshot given o h b bs e = e
answer-data_key ask_journal given o h b bs e = e
answer-data_key ask_put_snapshot given o h b bs e = e
answer-data_key ask_data_key given o h b bs e = e
answer-data_key ask_put_data_key given o h b bs e = put_once-kept given b bs h e
answer-data_key ask_doors given o h b bs e = e
answer-data_key ask_put_doors [] o h b bs e = e
answer-data_key ask_put_doors (x ∷ xs) o h b bs e = e
answer-data_key ask_add_record given o h b bs e = add_record_bare-data_key given h ∙ e
answer-data_key ask_add_record_2 given o h b bs e = ground (arith, add_record-data_key given h)
answer-data_key ask_other given o h b bs e = e

serve_host-data_key :
    (q : Ask × Outside) (h : Host) (b : ℕ) (bs : Bytes)
    → h.data_key ≡ b ∷ bs
    → (serve_host q h).0.data_key ≡ b ∷ bs
unfolding serve_host
serve_host-data_key (what, o) h b bs e = elim (Option-cases o.given) [
  | inl none_given ↦ simp none_given e
  | inr (given, came) ↦ simp came (answer-data_key what given o h b bs e)
]

serve_all_keeps :
    (asks : List (Ask × Outside)) (h : Host) (b : ℕ) (bs : Bytes)
    → h.data_key ≡ b ∷ bs
    → (serve_all asks h).data_key ≡ b ∷ bs
unfolding serve_all
serve_all_keeps [] h b bs e = e
serve_all_keeps (q ∷ qs) h b bs e =
    serve_all_keeps qs (serve_host q h).0 b bs (serve_host-data_key q h b bs e)

-- Where the host keeps a data key, it keeps the same one after any sequence of questions.
pub serve_all-data_key :
    (asks : List (Ask × Outside)) (h : Host)
    → h.data_key ≢ []
    → (serve_all asks h).data_key ≡ h.data_key
serve_all-data_key asks h kept = go h.data_key refl
  where
    go : (key : Bytes) → h.data_key ≡ key → (serve_all asks h).data_key ≡ h.data_key
    go [] e = absurd (kept e)
    go (b ∷ bs) e = serve_all_keeps asks h b bs e ∙ sym e
