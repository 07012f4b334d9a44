-- ===== src/Connection/Session/Sending.antt =====
-- `sendall` delivers all the bytes, in order, or a prefix of them and an exception.
use python3_gnutls.Prelude.{
  ℕ, zero, suc, ◌+◌, ◌-◌, ◌≤◌, ◌<◌, ◌≡◌, ◌≢◌, ◌∙◌, ap, sym, subst, Option, none, some, [], ◌∷◌,
  ◌++◌, append_assoc, append-nil, Bytes, pos, negsuc, pos_part, length, take, drop,
  take-append-drop, take-append_drop, length-drop, length-append, drop-append_self, arith,
}
use python3_gnutls.Errors.{Exception, Result, ok, err}
use python3_gnutls.Status.{Reply, check_status}
use python3_gnutls.Status.Laws.{check_status_ok, check_status_negative}
use python3_gnutls.Connection.Session.{send, send_rest, sendall}

-- `data[-size:]`
slice : (front rest : Bytes) → drop (length (front ++ rest) - length rest) (front ++ rest) ≡ rest
slice front rest =
    let e : length (front ++ rest) - length rest ≡ length front =
      omega (arith, length-append front rest) in
    rw e (drop-append_self front rest)

module _ {S : Type 0} (record_send : Bytes → S → Reply × S) (wire : S → Bytes) where
  -- What `gnutls_record_send` did with bytes: it put a part of them, not empty, onto the wire and
  -- returned its length, or failed and sent nothing.
  pub data Sent (bytes : Bytes) (s s' : S) (r : Reply) : Type 0 where
    accepted :
        (n : ℕ)
        → 0 < n
        → n ≤ length bytes
        → r.retcode ≡ pos n
        → wire s' ≡ wire s ++ take n bytes
        → Sent bytes s s' r
    refused : (n : ℕ) → r.retcode ≡ negsuc n → wire s' ≡ wire s → Sent bytes s s' r

  abbrev pub Sends : Type 0
  Sends =
      (bytes : Bytes) (s : S)
      → bytes ≢ []
      → Sent bytes s (record_send bytes s).1 (record_send bytes s).0

  -- The outcome of a run that began at `s`: all the bytes went out, or, with an exception, a proper
  -- prefix of them.
  pub data Delivered (bytes : Bytes) (s : S) : Option (Result (Unit {0}) × S) → Type 0 where
    complete : (s' : S) → wire s' ≡ wire s ++ bytes → Delivered bytes s (some (ok tt, s'))
    partial :
        (e : Exception) (s' : S) (k : ℕ)
        → k < length bytes
        → wire s' ≡ wire s ++ take k bytes
        → Delivered bytes s (some (err e, s'))

  extend :
      (n : ℕ) (bytes : Bytes) (s s' : S) {o : Option (Result (Unit {0}) × S)}
      → n ≤ length bytes
      → wire s' ≡ wire s ++ take n bytes
      → Delivered (drop n bytes) s' o
      → Delivered bytes s o
  extend n bytes s s' h e (complete t d) = complete t (
      d
      ∙ (ap (λ w. w ++ drop n bytes) e
          ∙ (append_assoc (wire s) (take n bytes) (drop n bytes)
              ∙ ap (λ w. wire s ++ w) (take-append-drop n bytes))))
  extend n bytes s s' h e (partial x t k lt d) =
      partial x t (n + k) (omega (arith, length-drop n bytes)) (
        d
        ∙ (ap (λ w. w ++ take k (drop n bytes)) e
            ∙ (append_assoc (wire s) (take n bytes) (take k (drop n bytes))
                ∙ ap (λ w. wire s ++ w) (take-append_drop n k bytes))))

  -- The rest of a run after a round in which the library answered as it documents.
  after_round :
      (fuel : ℕ) (front rest : Bytes) (s s' : S) (r : Reply)
      → length rest ≤ suc fuel
      → ((front' rest' : Bytes) (t : S)
          → length rest' ≤ fuel
          → Delivered rest' t (send_rest record_send fuel (front' ++ rest') (length rest') t))
      → 0 < length rest
      → Sent rest s s' r
      → Delivered rest s (elim (check_status none r) [
        | ok sent ↦ send_rest record_send fuel (front ++ rest) (length rest - pos_part sent) s'
        | err e ↦ some (err e, s')
      ])
  after_round fuel front rest s s' r h ih some_left (accepted n positive fits code sent) =
      let next = ih (front ++ take n rest) (drop n rest) s' (omega (arith, length-drop n rest)) in
      let whole : (front ++ take n rest) ++ drop n rest ≡ front ++ rest =
        append_assoc front (take n rest) (drop n rest)
        ∙ ap (λ l. front ++ l) (take-append-drop n rest) in
      rw (check_status_ok none r (rw code (omega arith)), code)
        (extend n rest s s' fits sent (
          subst (λ m. Delivered (drop n rest) s' (send_rest record_send fuel (front ++ rest) m s'))
            (length-drop n rest)
            (subst
              (λ l.
                Delivered (drop n rest) s' (send_rest record_send fuel l (length (drop n rest)) s'))
              whole next)))
  after_round fuel front rest s s' r h ih some_left (refused n code same) =
      let (e, raised) = check_status_negative none r n code in
      rw raised (partial e s' 0 some_left (same ∙ sym (append-nil (wire s))))

  -- A round of the loop, `size` bytes being left, on the bytes that it hands to `send`.
  abbrev round : ℕ → Bytes → ℕ → Bytes → S → Option (Result (Unit {0}) × S)
  round fuel bytes size part s =
      let (r, s') = send record_send part s in
      elim r [
        | ok sent ↦ send_rest record_send fuel bytes (size - pos_part sent) s'
        | err e ↦ some (err e, s')
      ]

  send_rest_lem :
      Sends
      → (fuel : ℕ) (front rest : Bytes) (s : S) → length rest ≤ fuel
      → Delivered rest s (send_rest record_send fuel (front ++ rest) (length rest) s)
  unfolding send_rest
  send_rest_lem contract zero front [] s h = complete s (sym (append-nil (wire s)))
  send_rest_lem contract (suc fuel) front [] s h = complete s (sym (append-nil (wire s)))
  send_rest_lem contract zero front (b ∷ bs) s h = absurd (omega arith)
  send_rest_lem contract (suc fuel) front (b ∷ bs) s h =
      subst (λ part. Delivered (b ∷ bs) s (round fuel (front ++ b ∷ bs) (length (b ∷ bs)) part s))
        (sym (slice front (b ∷ bs)))
        (after_round fuel front (b ∷ bs) s (record_send (b ∷ bs) s).1 (record_send (b ∷ bs) s).0 h
          (send_rest_lem contract fuel) (omega arith) (contract (b ∷ bs) s (cc)))

  -- Over a library that answers as documented, `sendall` ends: it has put all the bytes onto the wire,
  -- in order and once, or it raised after a proper prefix of them.
  pub sendall_lem :
      Sends → (bytes : Bytes) (s : S) → Delivered bytes s (sendall record_send bytes s)
  unfolding sendall
  sendall_lem contract bytes s = send_rest_lem contract (length bytes) [] bytes s (omega arith)
