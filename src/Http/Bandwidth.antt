-- ===== src/Http/Bandwidth.antt =====
-- internal/handlers/bandwidth.go: BandwidthHandler.
use rpi_network_filter.Common.{◌++◌, Text, codes, map}
use rpi_network_filter.Bandwidth.{
  list_limits, create_limit, update_limit, delete_limit, apply_limits,
}
use rpi_network_filter.Firewall.Apply.{exec}
use rpi_network_filter.Http.{
  Env, Request, limits, created, Reply, Handler, json, ok_reply, with_body, call, audit, applied,
}
use rpi_network_filter.Http.Params.{with_id}
use rpi_network_filter.Http.Policies.{error_text}

-- `if err := h.bandwidth.Apply(); err != nil`, and the answer behind it.
unfoldable pub apply_bandwidth : Env → Text → Reply → Handler
apply_bandwidth env prefix reply s =
    let (result, commands) = apply_limits env.cfg (λ c. env.works (exec c)) s.store in
    applied (result, map exec commands) prefix reply s

unfoldable pub list : Handler
unfolding list_limits
list s = (json 200 (limits (list_limits s.store)), s)

module _ (env : Env) where
  unfoldable pub create : Request → Handler
  create r = with_body r.limit λ l.
      call (create_limit env.last_insert_rowid l) (error_text 500) λ row.
        audit (codes "bandwidth.create") (codes "device=" ++ l.device_mac)
          (apply_bandwidth env (codes "limit saved but failed to apply: ") (json 201 (created row)))

  unfoldable pub update : Request → Handler
  update r = with_id (r.url_param (codes "id")) (codes "invalid limit id") λ id.
      with_body r.limit λ l. call (update_limit id.row l) (error_text 500) λ _.
        audit (codes "bandwidth.update") (codes "device=" ++ l.device_mac)
          (apply_bandwidth env (codes "limit updated but failed to apply: ") ok_reply)

  unfoldable pub delete : Request → Handler
  delete r = with_id (r.url_param (codes "id")) (codes "invalid limit id") λ id.
      call (delete_limit id.row) (error_text 500) λ _.
        audit (codes "bandwidth.delete") (codes "limit_id=" ++ r.url_param (codes "id"))
          (apply_bandwidth env (codes "limit deleted but failed to apply: ") ok_reply)
