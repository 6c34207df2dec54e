-- ===== src/Tests.antt =====
-- Runs of the models on concrete objects, and the theorems applied to them.
mod Data
mod Access
mod Weights
mod Routes
mod VirtualServices
mod Forms
mod Status
mod Apps
mod Pods
mod Handlers
mod PortForms
mod RouteCommands
mod Clusters
mod Promotions
mod Redirects
