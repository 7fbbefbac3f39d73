-- ===== src/RegionFactory.antt =====
-- `RegionFactory`: include/tracker/regionfactory.h and src/tracker/regionfactory.cxx. It joins the
-- snapshot of a region with the updates that the region publishes meanwhile. The product is shared
-- with the snapshot client, which fills it; whether the client starts is a parameter. The call of
-- `m_completed` is returned.
use ris.Base.{String, Bool, true, false, Option, none, some, if◌then◌else◌, not, ◌>>=◌}
use ris.Observer.{Status, ok, failed}
use ris.RiTypes.Region.{Region}
use ris.RegionProduct
use ris.RegionProduct.{RegionProduct}
use ris.RegionTable.Mirror.{handle_all}
use ris.RegionSubCacher
use ris.RegionSubCacher.{RegionSubCacher}

pub record RegionFactory : Type 0 where
  pub region_id : String
  pub product : Option RegionProduct
  pub subcacher : Option RegionSubCacher
  pub has_client : Bool

unfoldable pub create : RegionFactory
create = record { region_id = ""; product = none; subcacher = none; has_client = false }

unfoldable pub stop : RegionFactory → RegionFactory
stop f = record { region_id = ""; product = none; subcacher = none; has_client = false }

unfoldable pub start : RegionFactory → Region → Bool → RegionFactory × Status
unfolding stop
start f region client_starts =
    if f.has_client then (f, failed) else if not client_starts then (stop f, failed) else (
      record {
        region_id = region.id;
        product = some RegionProduct.create;
        subcacher = some (RegionSubCacher.create region);
        has_client = true;
      },
      ok,
    )

-- `m_subcacher->present(region.version, m_product)`: the queue, the status, and the product after
-- the calls.
unfoldable pub present_to :
    RegionSubCacher → RegionProduct → Option (RegionSubCacher × Status × RegionProduct)
present_to c p = do
  (c', status, es) ← RegionSubCacher.present c p.region.version
  some (c', status, handle_all p es)

-- The region and the product that `completed` is called with, if there is one; `none` is a null
-- pointer that is read.
unfoldable pub on_snapshot_completed :
    RegionFactory → Status → Option (RegionFactory × String × Option RegionProduct)
unfolding present_to stop
on_snapshot_completed f failed = some (stop f, f.region_id, none)
on_snapshot_completed f ok = do
  p ← f.product
  c ← f.subcacher
  (c', status, p') ← present_to c p
  some (stop f, f.region_id, elim status [ ok ↦ some p' | failed ↦ none ])
