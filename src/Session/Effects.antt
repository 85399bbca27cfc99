-- ===== src/Session/Effects.antt =====
-- What a log says: the buffers handed to `WSASend`, and the packets handed to `OnRecvPacket`.
use cplus_server_core_model.Prelude.{
  ◌≡◌, refl, ap, sym, ◌∙◌, List, [], ◌∷◌, ◌++◌, ℕ, append_assoc, map,
}
use cplus_server_core_model.Session.{Effect}

abbrev pub posted : List Effect → List (List ℕ)
posted [] = []
posted (Effect.wsa_send buffers ∷ es) = buffers ++ posted es
posted (_ ∷ es) = posted es

abbrev pub delivered : List Effect → List (List ℕ)
delivered [] = []
delivered (Effect.on_recv_packet p ∷ es) = p ∷ delivered es
delivered (_ ∷ es) = delivered es

pub posted-append : (xs ys : List Effect) → posted (xs ++ ys) ≡ posted xs ++ posted ys
posted-append [] ys = refl
posted-append (Effect.wsa_send bs ∷ xs) ys =
    ap (◌++◌ bs) (posted-append xs ys) ∙ sym (append_assoc bs (posted xs) (posted ys))
posted-append (_ ∷ xs) ys = posted-append xs ys

pub delivered-append : (xs ys : List Effect) → delivered (xs ++ ys) ≡ delivered xs ++ delivered ys
delivered-append [] ys = refl
delivered-append (Effect.on_recv_packet p ∷ xs) ys = ap (◌∷◌ p) (delivered-append xs ys)
delivered-append (_ ∷ xs) ys = delivered-append xs ys

pub delivered-map : (ps : List (List ℕ)) → delivered (map Effect.on_recv_packet ps) ≡ ps
delivered-map [] = refl
delivered-map (p ∷ ps) = ap (◌∷◌ p) (delivered-map ps)
