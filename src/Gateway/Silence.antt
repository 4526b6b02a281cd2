-- ===== src/Gateway/Silence.antt =====
-- The handlers of the gateway speak under its own address only.
use canboat_rs.Prelude.{ℕ, ◌≡◌, List, Option}
use canboat_rs.Frame.{RawFrame}
use canboat_rs.AddressClaim.{AddressClaim}
use canboat_rs.Responder.{ProductInfo}
use canboat_rs.Responder.Product.{product_frame}
use canboat_rs.Gateway.{NmeaDevice, Host, Effect}
use canboat_rs.Gateway.Speech.{AllSpeak}

-- A handler that leaves the claim as it is, and speaks under it.
abbrev Keeps : AddressClaim → NmeaDevice × List Effect → Type 0
Keeps c r = (r.0.claim ≡ c) × AllSpeak c r.1

-- A handler that speaks under the claim that it ends with.
abbrev pub SpeaksAtEnd : NmeaDevice × List Effect → Type 0
SpeaksAtEnd r = AllSpeak r.0.claim r.1

module _ (host : Host) where
  abbrev product : ProductInfo → ℕ → Option RawFrame
  product = product_frame host.fl host.db host.product_fields
