-- ===== src/Service/Receive/CutOff.antt =====
-- What a batch that fails leaves: `Receive` of internal/service/packet_issuance.go.
use chrono_desk.Prelude.{
  List, [], ap, ◌++◌, ◌∷◌, ◌≡◌, inl, inr, length, not, refl, subst, sym, true, within, ◌∙◌,
}
use chrono_desk.Service.Receive.Batch.{receive_all, receive_one, receive}
use chrono_desk.Service.Receive.Persist.{External, PacketConnectionContext}
use chrono_desk.Store.Tables.{Tables}
use chrono_desk.Store.Db.{
  pure, done, failed, resume, within_tx, Failure, commit-failed, message, raise_if,
  resume-eq-failed, ◌>>=◌,
}
use chrono_desk.Store.Operations.{Receipt}
use chrono_desk.Packet.Operation.{Operation}

-- Some first operations are committed, and the one after them has failed.
unfoldable pub IsCutOff :
    External → PacketConnectionContext → List Operation → Tables → Failure → Tables → Type 0
IsCutOff env connection operations s e t =
    (before : List Operation) × (o : Operation) × (after : List Operation) × (receipts : List
      Receipt)
    × (operations ≡ before ++ (o ∷ after))
    × (receive_all env connection before s ≡ done receipts t)
    × (receive_one env connection o t ≡ failed e t)

module _ (env : External) (connection : PacketConnectionContext) where
  receive_one-unchanged :
      (o : Operation) (s t : Tables) (e : Failure)
      → receive_one env connection o s ≡ failed e t
      → t ≡ s
  unfolding receive_one within_tx
  receive_one-unchanged o s t e h = commit-failed s _ h

  rest_failed :
      (o : Operation) (os : List Operation) (receipt : Receipt) (s u t : Tables) (e : Failure)
      → receive_one env connection o s ≡ done receipt u
      → IsCutOff env connection os u e t
      → IsCutOff env connection (o ∷ os) s e t
  unfolding IsCutOff receive_all resume
  rest_failed o os receipt s u t e first (before, x, after, receipts, p, q, r) = (
    o ∷ before,
    x,
    after,
    receipt ∷ receipts,
    ap (λ l. o ∷ l) p,
    ap (λ x. resume x (λ a. receive_all env connection before >>= λ rest. pure (a ∷ rest))) first
        ∙ ap (λ x. resume x (λ rest. pure (receipt ∷ rest))) q,
    r,
  )

  all_failed :
      (os : List Operation) (s t : Tables) (e : Failure)
      → receive_all env connection os s ≡ failed e t
      → IsCutOff env connection os s e t
  unfolding receive_all IsCutOff
  all_failed [] s t e h = cc
  all_failed (o ∷ os) s t e h = elim (resume-eq-failed (receive_one env connection o s) _ h) [
    | inl p ↦
        let same = receive_one-unchanged o s t e p in
        (
          [],
          o,
          os,
          [],
          refl,
          ap (done []) (sym same),
          subst (λ x. receive_one env connection o x ≡ failed e t) (sym same) p,
        )
    | inr (receipt, u, p, h1) ↦
        rest_failed o os receipt s u t e p
          (elim (resume-eq-failed (receive_all env connection os u) _ h1) [
            | inl q ↦ all_failed os u t e q
            | inr (receipts, v, q, h2) ↦ cc
          ])
  ]

  -- If `Receive` fails on a batch of 1 to 64 operations, then some first operations of the batch have been
  -- committed, in their order, and the one after them has failed and left the tables as they are; no
  -- later one has been begun.
  pub receive-IsCutOff :
      (os : List Operation) (s t : Tables) (e : Failure)
      → within 1 64 (length os) ≡ true
      → receive env connection os s ≡ failed e t
      → IsCutOff env connection os s e t
  unfolding receive raise_if resume
  receive-IsCutOff os s t e size h = all_failed os s t e (
      subst
        (λ b.
          resume (raise_if (not b) (message "invalid_operation_batch") s)
            (λ _. receive_all env connection os)
          ≡ failed e t)
        size h)
