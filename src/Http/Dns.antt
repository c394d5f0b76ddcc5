-- ===== src/Http/Dns.antt =====
-- internal/handlers/dns.go: DNSHandler.
use rpi_network_filter.Common.{◌++◌, Text, codes}
use rpi_network_filter.Strings.Decimal.{format_int}
use rpi_network_filter.Dns.{
  list_entries, create_entry, delete_entry, import_domains, apply_blocklist,
}
use rpi_network_filter.Http.{
  Env, Request, dns_entries, created, imported, Reply, Handler, json, ok_reply, with_body, call,
  audit, applied,
}
use rpi_network_filter.Http.Params.{with_id}
use rpi_network_filter.Http.Policies.{error_text}

-- `if err := h.dns.Apply(); err != nil`, and the answer behind it.
unfoldable pub apply_dns : Env → Text → Reply → Handler
apply_dns env prefix reply s =
    applied (apply_blocklist env.cfg.dry_run env.works s.store) prefix reply s

unfoldable pub list : Handler
unfolding list_entries
list s = (json 200 (dns_entries (list_entries s.store)), s)

module _ (env : Env) where
  unfoldable pub create : Request → Handler
  create r = with_body r.dns_entry λ d.
      call (create_entry d.domain d.category) (error_text 500) λ row.
        audit (codes "dns.create") d.domain
          (apply_dns env (codes "entry saved but failed to apply: ") (json 201 (created row)))

  unfoldable pub delete : Request → Handler
  delete r = with_id (r.url_param (codes "id")) (codes "invalid entry id") λ id.
      call (delete_entry id.row) (error_text 500) λ _.
        audit (codes "dns.delete") (codes "entry_id=" ++ r.url_param (codes "id"))
          (apply_dns env (codes "entry deleted but failed to apply: ") ok_reply)

  unfoldable pub import_list : Request → Handler
  import_list r = with_body r.dns_text λ d.
      call (import_domains d.text d.category) (error_text 500) λ count.
        audit (codes "dns.import")
          (codes "imported " ++ format_int count ++ codes " domains, category=" ++ d.category)
          (apply_dns env (codes "imported but failed to apply: ") (json 200 (imported count)))
