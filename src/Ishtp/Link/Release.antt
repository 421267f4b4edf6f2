-- ===== src/Ishtp/Link/Release.antt =====
-- Flushing and freeing a client, src/intel-ish-hid-linux-6.5/ishtp/client.c.
use ubuntu_elkhart_lake_pse.Prelude.{ℕ, ◌≡◌, refl, List, [], ◌∷◌, some, arith, inl, inr, Bool-cases}
use ubuntu_elkhart_lake_pse.Ishtp.Types.{Rb, Client, World}
use ubuntu_elkhart_lake_pse.Ishtp.Recv.Safety.{AllLive}
use ubuntu_elkhart_lake_pse.Ishtp.Link.{
  ishtp_cl_free, ishtp_cl_cmp_id, same_client, keep_rb, ishtp_read_list_flush,
}

-- After its client's posted buffers were flushed, freeing the client leaves every posted buffer with a
-- client in memory or with none.
pub flush-free-AllLive :
    (w : World) (p : ℕ) (cl : Client) (rs : List Rb)
    → w.heap p ≡ some cl
    → AllLive w.heap rs
    → (rs' : List Rb) × (ishtp_read_list_flush w.heap cl rs ≡ some rs')
      × AllLive (ishtp_cl_free w p).heap rs'
unfolding ishtp_read_list_flush same_client keep_rb ishtp_cl_cmp_id ishtp_cl_free
flush-free-AllLive w p cl [] h a = ([], refl, tt)
flush-free-AllLive w p cl (r ∷ rs) h (inl n, a) =
    let (rs', e, b) = flush-free-AllLive w p cl rs h a in (r ∷ rs', ground arith, (inl n, b))
flush-free-AllLive w p cl (r ∷ rs) h (inr (q, c, d, f), a) =
    let (rs', e, b) = flush-free-AllLive w p cl rs h a in
    elim (Bool-cases (ishtp_cl_cmp_id cl c)) [
      | inl t ↦ (rs', ground arith, b)
      | inr t ↦ (r ∷ rs', ground arith, (inr (q, c, d, ground arith), b))
    ]
